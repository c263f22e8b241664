-- ===== src/Tests/Scanner.antt =====
-- The scanner and the decoder.
use scshell.Base.{zero, suc, ap, All, ℕ, [], ◌∷◌, ◌⊎◌, inr, ◌≡◌, refl, arith, Bytes, length}
use scshell.Utf8.{is_utf8, from_utf8_lossy}
use scshell.Uri.{hash_uri, percent_loop, percent_decode, escape, hex_pair, to_digit_16}
use scshell.Uri.Escapes.{percent_encode}
use scshell.Osc7.{scan, scan_osc7, cwd_of_url, initial}
use scshell.Osc7.Invariant.{IsValid, scan-IsValid}
use scshell.Osc7.Reports.{IsBody, report}
use scshell.Osc7.Paths.{file_url, named_path, scan-report-file_url}
use scshell.Osc7.Origin.{Reported, scan-Reported}
use scshell.Base.{codes}

-- `from_utf8_lossy`: a lone continuation byte, a surrogate, and a sequence cut short.
lossy :
    (from_utf8_lossy (0x41 ∷ 0x80 ∷ 0x42 ∷ []) ≡ 0x41 ∷ 0xef ∷ 0xbf ∷ 0xbd ∷ 0x42 ∷ [])
    × (from_utf8_lossy (0xe2 ∷ 0x82 ∷ 0xac ∷ []) ≡ 0xe2 ∷ 0x82 ∷ 0xac ∷ [])
    × (from_utf8_lossy (0xe2 ∷ 0x82 ∷ 0x41 ∷ []) ≡ 0xef ∷ 0xbf ∷ 0xbd ∷ 0x41 ∷ [])
unfolding from_utf8_lossy
lossy = (refl, refl, refl)

decoding :
    (percent_decode (codes "a%20b%2") ≡ codes "a b%2")
    × (percent_decode (codes "%zz%41") ≡ codes "%zzA")
unfolding percent_decode percent_loop escape hex_pair to_digit_16 from_utf8_lossy
decoding = (refl, refl)

-- The 32-bit FNV-1a hash of "a".
hashing : hash_uri (codes "a") ≡ 0xe40c_292c
unfolding hash_uri
hashing = refl

directory : (scan initial (report (codes "file://pc/C:/My%20Docs") 7)).cwd ≡ codes "C:/My Docs"
unfolding scan scan_osc7 cwd_of_url percent_decode percent_loop escape hex_pair to_digit_16
    from_utf8_lossy
directory = refl

-- An ESC right behind `ESC ]` does not begin a new sequence, though one behind ESC does.
missed :
    ((scan initial (0x1b ∷ b']' ∷ report (codes "/b") 7)).cwd ≡ [])
    × ((scan initial (0x1b ∷ report (codes "/b") 7)).cwd ≡ codes "/b")
unfolding scan scan_osc7 cwd_of_url percent_decode percent_loop escape hex_pair to_digit_16
    from_utf8_lossy
missed = (refl, refl)

scan-report-file_url_example :
    (scan initial (report (file_url (codes "pc") (codes "/C:/My Docs")) 0x1b)).cwd
    ≡ named_path (codes "C:/My Docs")
unfolding is_utf8 percent_encode
scan-report-file_url_example =
    scan-report-file_url initial (codes "pc") (codes "C:/My Docs") 0x1b (omega arith) (omega arith)
      (omega arith) refl (omega arith) (inr refl)

long_url : ℕ → Bytes
long_url zero = []
long_url (suc n) = b'a' ∷ long_url n

length-long_url : (n : ℕ) → length (long_url n) ≡ n
unfolding long_url
length-long_url zero = refl
length-long_url (suc n) = ap suc (length-long_url n)

long_url-IsBody : (n : ℕ) → All IsBody (long_url n)
unfolding long_url
long_url-IsBody zero = tt
long_url-IsBody (suc n) = ((omega arith, omega arith), long_url-IsBody n)

scan-Reported_example :
    ((scan initial (report (codes "/b") 7)).cwd ≡ [])
    ⊎ Reported (report (codes "/b") 7) (scan initial (report (codes "/b") 7)).cwd
scan-Reported_example = scan-Reported (report (codes "/b") 7)

initial-IsValid : IsValid initial
initial-IsValid = record { known = omega arith; small = omega arith; clean = λ h. refl }

scan-IsValid_example : IsValid (scan initial (codes "out"))
scan-IsValid_example = scan-IsValid initial (codes "out") initial-IsValid
