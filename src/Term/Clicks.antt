-- ===== src/Term/Clicks.antt =====
-- The URI that the host gets for a link that it draws.
use scshell.Base.{ℕ, ◌<◌, List, [], ◌∷◌, Option, none, some, ◌≡◌, arith, Bytes, All}
use scshell.Cell.{HostCell, AtCell}
use scshell.Uri.{hash_uri}
use scshell.Uri.Escapes.{hash_uri_range}
use scshell.Term.{Emulator, TermHost, SnapshotMeta, snapshot, grid_cells, hyperlink_uri}
use scshell.Term.Cursor.{IsSized}
use scshell.Term.Links.{IsHashed, Resolves, IsResolved}
use scshell.Term.Render.{snapshot-IsFrame}

-- The id of a link gives a URI that has the same id.
abbrev pub IsClickable : {E : Type 0} → TermHost E → Option Bytes → Type 0
IsClickable t none = Unit
IsClickable t (some uri) = hash_uri (hyperlink_uri t (hash_uri uri)) ≡ hash_uri uri

module _ {E : Type 0} where
  hyperlink_uri-Resolves :
      (t : TermHost E) (id : ℕ)
      → 0 < id
      → Resolves t.hyperlinks id
      → hash_uri (hyperlink_uri t id) ≡ id
  unfolding hyperlink_uri
  hyperlink_uri-Resolves t id pos_id r = rw r.found (ground (arith, r.same_hash))

  IsClickable-of : (t : TermHost E) (o : Option Bytes) → IsResolved t.hyperlinks o → IsClickable t o
  IsClickable-of t none r = tt
  IsClickable-of t (some uri) r = hyperlink_uri-Resolves t (hash_uri uri) (hash_uri_range uri).0 r

  All-IsClickable :
      (t : TermHost E) (cs : List AtCell)
      → All (λ (c : AtCell). IsResolved t.hyperlinks c.hyperlink) cs
      → All (λ (c : AtCell). IsClickable t c.hyperlink) cs
  All-IsClickable t [] r = tt
  All-IsClickable t (c ∷ cs) (r, rs) = (IsClickable-of t c.hyperlink r, All-IsClickable t cs rs)

  -- Under the conditions of `snapshot-IsFrame`, each link of the viewport is found behind a
  -- snapshot: the lookup by its id gives a URI with that very id.
  pub snapshot-hyperlink_uri :
      (em : Emulator E) (t : TermHost E)
      → IsSized t.size
      → IsHashed t.hyperlinks
      → (after : TermHost E) × (cells : List HostCell) × (meta : SnapshotMeta) × (snapshot em t
          ≡ some (after, cells, meta))
        × All
            (λ (c : AtCell). IsClickable after c.hyperlink)
            (grid_cells t.size.lines 0 t.size.cols (em.view t.term))
  snapshot-hyperlink_uri em t s v =
      let shot = snapshot-IsFrame em t s v in
      (
        shot.after,
        shot.cells,
        shot.meta,
        shot.made,
        All-IsClickable shot.after _ shot.linked.resolved,
      )
