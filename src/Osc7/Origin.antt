-- ===== src/Osc7/Origin.antt =====
-- Where the directory comes from: every value of `current_cwd` stems from a whole report.
use mathlib.Core.List.{append_assoc, append-nil}
use scshell.Base.{
  ℕ, zero, suc, ◌≤◌, true, false, ◌||◌, [], ◌∷◌, ◌++◌, ◌⊎◌, inl, inr, ◌≡◌, refl, sym, ap, ◌∙◌, ◌==◌,
  arith, Bytes, All, All-append, length, Bool-cases, ==_iff, ltb, if◌then◌else◌,
}
use scshell.Utf8.{from_utf8_lossy}
use scshell.Osc7.{Osc7, cwd_of_url, scan_osc7, scan, scan_in, scan_url, initial}
use scshell.Osc7.Reports.{IsBody, IsEnd, report}

-- `seen` holds a report of a url of at most 4096 bytes that gives the directory `cwd`.
pub record Reported (seen cwd : Bytes) : Type 0 where
  pub before : Bytes
  pub url : Bytes
  pub end : ℕ
  pub after : Bytes
  pub splits : seen ≡ before ++ (report url end ++ after)
  pub body : All IsBody url
  pub short : length url ≤ 4096
  pub stops : IsEnd end
  pub gives : cwd ≡ cwd_of_url (from_utf8_lossy url)

-- What the state and the buffer say of the last bytes seen.
abbrev Recent : ℕ → Bytes → Bytes → Type 0
Recent zero buf seen = Unit
Recent (suc zero) buf seen = (before : Bytes) × (seen ≡ before ++ 0x1b ∷ [])
Recent (suc (suc zero)) buf seen = (before : Bytes) × (seen ≡ before ++ 0x1b ∷ b']' ∷ [])
Recent (suc (suc (suc zero))) buf seen =
    (before : Bytes) × (seen ≡ before ++ 0x1b ∷ b']' ∷ b'7' ∷ [])
Recent (suc (suc (suc (suc zero)))) buf seen =
    (before : Bytes) × (seen ≡ before ++ (0x1b ∷ b']' ∷ b'7' ∷ b';' ∷ buf))
    × All IsBody buf
    × (length buf ≤ 4096)
Recent (suc (suc (suc (suc (suc n))))) buf seen = Unit

abbrev Known : Bytes → Bytes → Type 0
Known seen cwd = (cwd ≡ []) ⊎ Reported seen cwd

record Origin (seen : Bytes) (t : Osc7) : Type 0 where
  recent : Recent t.state t.buf seen
  known : Known seen t.cwd

extend : (seen cwd : Bytes) (b : ℕ) → Known seen cwd → Known (seen ++ b ∷ []) cwd
extend seen cwd b (inl e) = inl e
extend seen cwd b (inr r) = inr (record {
  before = r.before;
  url = r.url;
  end = r.end;
  after = r.after ++ b ∷ [];
  splits =
      ap (λ (s : Bytes). s ++ b ∷ []) r.splits
      ∙ append_assoc r.before (report r.url r.end ++ r.after) (b ∷ [])
      ∙ ap (◌++◌ r.before) (append_assoc (report r.url r.end) r.after (b ∷ []));
  body = r.body;
  short = r.short;
  stops = r.stops;
  gives = r.gives;
})

-- One more byte behind a known tail.
grow :
    (seen before tail : Bytes) (b c : ℕ)
    → seen ≡ before ++ tail
    → b ≡ c
    → seen ++ b ∷ [] ≡ before ++ (tail ++ c ∷ [])
grow seen before tail b c e h = rw (e, h) (append_assoc before tail (c ∷ []))

IsEnd-of : (b : ℕ) → (b == 0x07 || b == 0x1b) ≡ true → IsEnd b
IsEnd-of b h = ground arith

IsBody-of : (b : ℕ) → (b == 0x07 || b == 0x1b) ≡ false → IsBody b
IsBody-of b h = ground arith

module _ (seen : Bytes) (b : ℕ) (t : Osc7) (known : Known seen t.cwd) where
  -- The next state of the scanner, which keeps the directory.
  moves :
      (m : ℕ) (buf : Bytes)
      → Recent m buf (seen ++ b ∷ [])
      → Origin (seen ++ b ∷ []) (record { state = m; buf = buf; cwd = t.cwd })
  moves m buf r = record { recent = r; known = extend seen t.cwd b known }

  idle-Origin : t.state ≡ 0 → Origin (seen ++ b ∷ []) (scan_in 0 t b)
  unfolding scan_osc7
  idle-Origin e = elim (Bool-cases (b == 0x1b)) [
    | inl esc ↦
        rw esc
          (moves 1 t.buf (seen, grow seen seen [] b 0x1b (sym (append-nil seen)) (ground arith)))
    | inr other ↦ rw other (record { recent = rw e tt; known = extend seen t.cwd b known })
  ]

  esc-Origin : Recent 1 t.buf seen → Origin (seen ++ b ∷ []) (scan_in 1 t b)
  unfolding scan_osc7
  esc-Origin (before, e) = elim (Bool-cases (b == b']')) [
    | inl bracket ↦ rw bracket (moves 2 t.buf (before, grow seen before _ b b']' e (ground arith)))
    | inr other ↦ rw other (elim (Bool-cases (b == 0x1b)) [
      | inl esc ↦
          rw esc
            (moves 1 t.buf (seen, grow seen seen [] b 0x1b (sym (append-nil seen)) (ground arith)))
      | inr text ↦ rw text (moves 0 t.buf tt)
    ])
  ]

  bracket-Origin : Recent 2 t.buf seen → Origin (seen ++ b ∷ []) (scan_in 2 t b)
  unfolding scan_osc7
  bracket-Origin (before, e) = elim (Bool-cases (b == b'7')) [
    | inl seven ↦ rw seven (moves 3 t.buf (before, grow seen before _ b b'7' e (ground arith)))
    | inr other ↦ rw other (moves 0 t.buf tt)
  ]

  seven-Origin : Recent 3 t.buf seen → Origin (seen ++ b ∷ []) (scan_in 3 t b)
  unfolding scan_osc7
  seven-Origin (before, e) = elim (Bool-cases (b == b';')) [
    | inl opens ↦
        rw opens (moves 4 [] (before, grow seen before _ b b';' e (ground arith), tt, omega arith))
    | inr other ↦ rw other (moves 0 t.buf tt)
  ]

  url-Origin : t.state ≡ 4 → Recent 4 t.buf seen → Origin (seen ++ b ∷ []) (scan_url t b)
  unfolding scan_osc7
  url-Origin s (before, e, body, short) = elim (Bool-cases (b == 0x07 || b == 0x1b)) [
    | inl ends ↦ rw ends (record {
      recent = ended;
      known = inr (record {
        before = before;
        url = t.buf;
        end = b;
        after = [];
        splits =
            grow seen before _ b b e refl ∙ ap (◌++◌ before) (sym (append-nil (report t.buf b)));
        body = body;
        short = short;
        stops = IsEnd-of b ends;
        gives = refl;
      });
    })
    | inr more ↦ rw more (elim (Bool-cases (ltb 4096 (length (t.buf ++ b ∷ [])))) [
      | inl long ↦ rw long (moves 0 [] tt)
      | inr fits ↦ rw fits (record {
        recent = rw s (
          before,
          grow seen before _ b b e refl,
          All-append IsBody t.buf (b ∷ []) body (IsBody-of b more, tt),
          ground arith,
        );
        known = extend seen t.cwd b known;
      })
    ])
  ]
    where
      ended : Recent (if b == 0x1b then 1 else 0) [] (seen ++ b ∷ [])
      ended = elim (Bool-cases (b == 0x1b)) [
        | inl esc ↦ rw esc (seen, ap (λ (c : ℕ). seen ++ c ∷ []) ((==_iff b 0x1b).0 esc))
        | inr bel ↦ rw bel tt
      ]

scan_osc7-Origin :
    (seen : Bytes) (t : Osc7) (b : ℕ) → Origin seen t → Origin (seen ++ b ∷ []) (scan_osc7 t b)
unfolding scan_osc7
scan_osc7-Origin seen t b o = by_state t.state refl o.recent
  where
    by_state : (m : ℕ) → t.state ≡ m → Recent m t.buf seen → Origin (seen ++ b ∷ []) (scan_in m t b)
    by_state zero e r = idle-Origin seen b t o.known e
    by_state (suc zero) e r = esc-Origin seen b t o.known r
    by_state (suc (suc zero)) e r = bracket-Origin seen b t o.known r
    by_state (suc (suc (suc zero))) e r = seven-Origin seen b t o.known r
    by_state (suc (suc (suc (suc zero)))) e r = url-Origin seen b t o.known e r
    by_state (suc (suc (suc (suc (suc n))))) e r = moves seen b t o.known 0 t.buf tt

scan-Origin :
    (seen : Bytes) (t : Osc7) (bs : Bytes) → Origin seen t → Origin (seen ++ bs) (scan t bs)
unfolding scan
scan-Origin seen t [] o = rw (append-nil seen) o
scan-Origin seen t (b ∷ bs) o =
    rw append_assoc at
      (scan-Origin (seen ++ b ∷ []) (scan_osc7 t b) bs (scan_osc7-Origin seen t b o))

-- Whatever bytes a new scanner reads, the directory is still empty, or the bytes hold a whole report
-- of at most 4096 bytes whose url gives that very directory.
pub scan-Reported : (bs : Bytes) → ((scan initial bs).cwd ≡ []) ⊎ Reported bs (scan initial bs).cwd
scan-Reported bs = (scan-Origin [] initial bs (record { recent = tt; known = inl refl })).known
