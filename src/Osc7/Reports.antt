-- ===== src/Osc7/Reports.antt =====
-- Which bytes report a directory: a whole url does, one too long or bytes with no ESC do not.
use scshell.Base.{
  if◌then◌else◌, ℕ, zero, suc, ◌+◌, ◌≤◌, ◌<◌, [], ◌∷◌, ◌++◌, ◌⊎◌, ◌≡◌, ◌≢◌, refl, ap, ◌∙◌, ◌==◌,
  arith, Bytes, All, length, length-append,
}
use scshell.Utf8.{from_utf8_lossy}
use scshell.Osc7.{Osc7, cwd_of_url, scan_osc7, scan}
use mathlib.Core.List.{append_assoc, append-nil}

-- A byte that ends no url.
abbrev pub IsBody : ℕ → Type 0
IsBody c = (c ≢ 0x07) × (c ≢ 0x1b)

-- `ESC ] 7 ; url` and one terminator, BEL or the ESC of `ESC \`.
abbrev pub report : Bytes → ℕ → Bytes
report url end = 0x1b ∷ b']' ∷ b'7' ∷ b';' ∷ (url ++ end ∷ [])

pub scan-append : (t : Osc7) (xs ys : Bytes) → scan t (xs ++ ys) ≡ scan (scan t xs) ys
unfolding scan
scan-append t [] ys = refl
scan-append t (x ∷ xs) ys = scan-append (scan_osc7 t x) xs ys

scan_osc7_body :
    (t : Osc7) (c : ℕ)
    → t.state ≡ 4
    → IsBody c
    → length t.buf < 4096
    → scan_osc7 t c ≡ record t { buf = t.buf ++ c ∷ [] }
unfolding scan_osc7
scan_osc7_body t c e h room = rw e (ground (arith, length-append t.buf (c ∷ [])))

scan_body :
    (t : Osc7) (url : Bytes)
    → t.state ≡ 4
    → All IsBody url
    → length t.buf + length url ≤ 4096
    → scan t url ≡ record t { buf = t.buf ++ url }
unfolding scan
scan_body t [] e h room = rw append-nil
scan_body t (c ∷ url) e (hc, hs) room = rw (scan_osc7_body t c e hc (omega arith)) (
    scan_body (record t { buf = t.buf ++ c ∷ [] }) url e hs
      (omega (arith, length-append t.buf (c ∷ [])))
    ∙ rw append_assoc)

abbrev pub IsEnd : ℕ → Type 0
IsEnd b = (b ≡ 0x07) ⊎ (b ≡ 0x1b)

-- After `ESC ] 7 ;` the scanner collects a url, from its idle state and from behind an ESC.
scan_intro :
    (t : Osc7) (rest : Bytes)
    → t.state ≤ 1
    → scan t (0x1b ∷ b']' ∷ b'7' ∷ b';' ∷ rest) ≡ scan (record t { state = 4; buf = [] }) rest
unfolding scan scan_osc7
scan_intro t rest h = intro t.state t refl h
  where
    intro :
        (m : ℕ) (t : Osc7)
        → t.state ≡ m
        → m ≤ 1
        → scan t (0x1b ∷ b']' ∷ b'7' ∷ b';' ∷ rest) ≡ scan (record t { state = 4; buf = [] }) rest
    intro zero t e h = rw e
    intro (suc zero) t e h = rw e
    intro (suc (suc n)) t e h = absurd (omega arith)

scan_end :
    (t : Osc7) (b : ℕ)
    → t.state ≡ 4
    → IsEnd b
    → scan t (b ∷ []) ≡ record {
      state = if b == 0x1b then 1 else 0;
      buf = [];
      cwd = cwd_of_url (from_utf8_lossy t.buf);
    }
unfolding scan scan_osc7
scan_end t b e h = rw e (ground arith)

-- A whole report of at most 4096 bytes, none of them a terminator, sets the directory to what its
-- url names, whichever of the two terminators ends it, from the idle state or from behind an ESC.
pub scan-report :
    (t : Osc7) (url : Bytes) (end : ℕ)
    → t.state ≤ 1
    → All IsBody url
    → length url ≤ 4096
    → IsEnd end
    → scan t (report url end) ≡ record {
      state = if end == 0x1b then 1 else 0;
      buf = [];
      cwd = cwd_of_url (from_utf8_lossy url);
    }
scan-report t url end s body room stop =
    let open_url : Osc7 = record t { state = 4; buf = [] } in
    scan_intro t (url ++ end ∷ []) s
    ∙ scan-append open_url url (end ∷ [])
    ∙ ap (λ (u : Osc7). scan u (end ∷ [])) (scan_body open_url url refl body (omega arith))
    ∙ scan_end (record t { state = 4; buf = url }) end refl stop

scan_overflow :
    (t : Osc7) (c : ℕ)
    → t.state ≡ 4
    → IsBody c
    → length t.buf ≡ 4096
    → scan t (c ∷ []) ≡ record t { state = 0; buf = [] }
unfolding scan scan_osc7
scan_overflow t c e h full = rw e (ground (arith, length-append t.buf (c ∷ [])))

-- A url of 4097 bytes, none of them a terminator, is dropped, from the idle state or from behind an
-- ESC: the directory stays, and the scanner is idle again.
pub scan_too_long :
    (t : Osc7) (url : Bytes) (c : ℕ)
    → t.state ≤ 1
    → All IsBody url
    → IsBody c
    → length url ≡ 4096
    → scan t (0x1b ∷ b']' ∷ b'7' ∷ b';' ∷ (url ++ c ∷ [])) ≡ record t { state = 0; buf = [] }
scan_too_long t url c s body hc full =
    let open_url : Osc7 = record t { state = 4; buf = [] } in
    scan_intro t (url ++ c ∷ []) s
    ∙ scan-append open_url url (c ∷ [])
    ∙ ap (λ (u : Osc7). scan u (c ∷ [])) (scan_body open_url url refl body (omega arith))
    ∙ scan_overflow (record t { state = 4; buf = url }) c refl hc full

scan_osc7_quiet : (t : Osc7) (b : ℕ) → t.state ≡ 0 → b ≢ 0x1b → scan_osc7 t b ≡ t
unfolding scan_osc7
scan_osc7_quiet t b e h = rw e (ground arith)

-- Output with no ESC leaves an idle scanner as it is.
pub scan_quiet : (t : Osc7) (bs : Bytes) → t.state ≡ 0 → All (λ b. b ≢ 0x1b) bs → scan t bs ≡ t
unfolding scan
scan_quiet t [] e h = refl
scan_quiet t (b ∷ bs) e (hb, hs) = rw (scan_osc7_quiet t b e hb) (scan_quiet t bs e hs)
