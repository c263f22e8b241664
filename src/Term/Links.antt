-- ===== src/Term/Links.antt =====
-- The ids of the links of a frame, and the URIs that they stand for.
use scshell.Base.{
  ℕ, List, [], ◌∷◌, map, Option, none, some, Option-cases, ◌≡◌, refl, inl, inr, arith, Bytes, All,
}
use scshell.Cell.{HostCell, AtCell, convert_cell}
use scshell.Uri.{hash_uri}
use scshell.Term.{Links, get, or_insert, link_cell, link_cells}

-- Each URI is kept under its own hash.
pub record IsHashed (links : Links) : Type 0 where
  pub hashed : (id : ℕ) (uri : Bytes) → get links id ≡ some uri → hash_uri uri ≡ id

-- The id stands for some URI with that hash.
pub record Resolves (links : Links) (id : ℕ) : Type 0 where
  pub uri : Bytes
  pub found : get links id ≡ some uri
  pub same_hash : hash_uri uri ≡ id

-- What `b` keeps of `a`.
pub record Keeps (a b : Links) : Type 0 where
  pub kept : (id : ℕ) (uri : Bytes) → get a id ≡ some uri → get b id ≡ some uri

or_insert-Keeps : (links : Links) (i : ℕ) (new : Bytes) → Keeps links (or_insert links i new)
unfolding or_insert get
or_insert-Keeps links i new = elim (Option-cases (get links i)) [
  | inl e ↦ record { kept = λ id uri h. ground arith }
  | inr (old, e) ↦ record { kept = λ id uri h. ground arith }
]

or_insert-IsHashed :
    (links : Links) (new : Bytes) → IsHashed links → IsHashed (or_insert links (hash_uri new) new)
unfolding or_insert get
or_insert-IsHashed links new v = elim (Option-cases (get links (hash_uri new))) [
  | inl e ↦ record { hashed = λ id uri h. ground (arith, v.hashed id uri) }
  | inr (old, e) ↦ record { hashed = λ id uri h. ground (arith, v.hashed id uri) }
]

or_insert-Resolves :
    (links : Links) (new : Bytes)
    → IsHashed links
    → Resolves (or_insert links (hash_uri new) new) (hash_uri new)
unfolding or_insert get
or_insert-Resolves links new v = elim (Option-cases (get links (hash_uri new))) [
  | inl e ↦ record { uri = new; found = ground arith; same_hash = refl }
  | inr (old, e) ↦ record {
    uri = old;
    found = ground arith;
    same_hash = v.hashed (hash_uri new) old e;
  }
]

-- What holds of the links behind one cell.
record IsKept (before after : Links) : Type 0 where
  pub keeps : Keeps before after
  pub hashed : IsHashed after

-- The id of a cell with this link is 0, or stands for a URI with the hash of the link.
abbrev pub link_id : Option Bytes → ℕ
link_id none = 0
link_id (some uri) = hash_uri uri

abbrev pub IsResolved : Links → Option Bytes → Type 0
IsResolved links none = Unit
IsResolved links (some uri) = Resolves links (hash_uri uri)

link_cell-IsKept :
    (links : Links) (o : Option Bytes) (cell : HostCell)
    → IsHashed links
    → IsKept links (link_cell links o cell).0
unfolding link_cell
link_cell-IsKept links none cell v = record { keeps = record { kept = λ id uri h. h }; hashed = v }
link_cell-IsKept links (some uri) cell v = record {
  keeps = or_insert-Keeps links (hash_uri uri) uri;
  hashed = or_insert-IsHashed links uri v;
}

link_cell-IsResolved :
    (links : Links) (o : Option Bytes) (cell : HostCell)
    → IsHashed links
    → IsResolved (link_cell links o cell).0 o
unfolding link_cell
link_cell-IsResolved links none cell v = tt
link_cell-IsResolved links (some uri) cell v = or_insert-Resolves links uri v

Keeps-IsResolved : (a b : Links) (o : Option Bytes) → Keeps a b → IsResolved a o → IsResolved b o
Keeps-IsResolved a b none k r = tt
Keeps-IsResolved a b (some uri) k r = record {
  uri = r.uri;
  found = k.kept (hash_uri uri) r.uri r.found;
  same_hash = r.same_hash;
}

link_cell-id :
    (links : Links) (c : AtCell)
    → (link_cell links c.hyperlink (convert_cell c)).1.hyperlink_id ≡ link_id c.hyperlink
unfolding link_cell convert_cell
link_cell-id links c = ground arith

-- What a pass over the cells of a frame leaves.
pub record IsLinked (before after : Links) (cs : List AtCell) (cells : List HostCell) : Type 0 where
  pub ids :
      map (λ (c : HostCell). c.hyperlink_id) cells ≡ map (λ (c : AtCell). link_id c.hyperlink) cs
  pub resolved : All (λ (c : AtCell). IsResolved after c.hyperlink) cs
  pub keeps : Keeps before after
  pub hashed : IsHashed after

pub link_cells-IsLinked :
    (links : Links) (cs : List AtCell)
    → IsHashed links
    → IsLinked links (link_cells links cs).0 cs (link_cells links cs).1
unfolding link_cells
link_cells-IsLinked links [] v = record {
  ids = refl;
  resolved = tt;
  keeps = record { kept = λ id uri h. h };
  hashed = v;
}
link_cells-IsLinked links (c ∷ cs) v =
    let mid = (link_cell links c.hyperlink (convert_cell c)).0 in
    let one = link_cell-IsKept links c.hyperlink (convert_cell c) v in
    let rest = link_cells-IsLinked mid cs one.hashed in
    let here = link_cell-IsResolved links c.hyperlink (convert_cell c) v in
    record {
      ids = rw (link_cell-id links c, rest.ids);
      resolved = (Keeps-IsResolved mid _ c.hyperlink rest.keeps here, rest.resolved);
      keeps = record { kept = λ id uri h. rest.keeps.kept id uri (one.keeps.kept id uri h) };
      hashed = rest.hashed;
    }
