-- ===== src/Timestamp/Format.antt =====
-- Reading the text that protobuf prints of a timestamp.
use lohpi.Common.{All, ℕ, ◌≡◌, refl, ◌≢◌, true, false, List, [], ◌∷◌, ◌++◌}
use mathlib.Core.List.{append-nil, append_assoc}
use lohpi.Timestamp.{is_digit, flush, find_runs, find_all}

abbrev pub Digits : List ℕ → Type 0
Digits = All (λ c. is_digit c ≡ true)

abbrev pub NoDigits : List ℕ → Type 0
NoDigits = All (λ c. is_digit c ≡ false)

find_runs-Digits :
    (run ds s : List ℕ) → Digits ds → find_runs run (ds ++ s) ≡ find_runs (run ++ ds) s
unfolding find_runs
find_runs-Digits run [] s h = rw append-nil
find_runs-Digits run (c ∷ ds) s h =
    rw (h.0, find_runs)
      (rw (find_runs-Digits (run ++ c ∷ []) ds s h.1) (rw (append_assoc run (c ∷ []) ds)))

find_runs-NoDigits : (s t : List ℕ) → NoDigits s → find_runs [] (s ++ t) ≡ find_runs [] t
unfolding find_runs
find_runs-NoDigits [] t h = refl
find_runs-NoDigits (c ∷ s) t h = rw (h.0, find_runs) (unfold flush in find_runs-NoDigits s t h.1)

find_runs-flush :
    (run : List ℕ) (c : ℕ) (s t : List ℕ)
    → NoDigits (c ∷ s)
    → find_runs run ((c ∷ s) ++ t) ≡ flush run (find_runs [] t)
unfolding find_runs
find_runs-flush run c s t h = rw (h.0, find_runs) (rw (find_runs-NoDigits s t h.1))

flush-cons : (run : List ℕ) (found : List (List ℕ)) → run ≢ [] → flush run found ≡ run ∷ found
unfolding flush
flush-cons [] found h = absurd (h refl)
flush-cons (c ∷ run) found h = refl

-- one number, then text that begins and goes on without digits
pub find_all-one :
    (pre ds post : List ℕ)
    → NoDigits pre
    → Digits ds
    → ds ≢ []
    → NoDigits post
    → find_all (pre ++ (ds ++ post)) ≡ ds ∷ []
unfolding find_all
find_all-one pre ds [] p d e q =
    rw (find_runs-NoDigits pre (ds ++ []) p, find_runs-Digits [] ds [] d)
      (unfold find_runs in flush-cons ds [] e)
find_all-one pre ds (c ∷ post) p d e q =
    rw (find_runs-NoDigits pre (ds ++ c ∷ post) p, find_runs-Digits [] ds (c ∷ post) d)
      (rw (← append-nil (c ∷ post))
        (rw (find_runs-flush ds c post [] q) (unfold find_runs flush in flush-cons ds [] e)))

pub find_all-two :
    (pre ds : List ℕ) (x : ℕ) (sep ns post : List ℕ)
    → NoDigits pre
    → Digits ds
    → ds ≢ []
    → NoDigits (x ∷ sep)
    → Digits ns
    → ns ≢ []
    → NoDigits post
    → find_all (pre ++ (ds ++ ((x ∷ sep) ++ (ns ++ post)))) ≡ ds ∷ ns ∷ []
unfolding find_all
find_all-two pre ds x sep ns post p d e q n f r =
    rw (find_runs-NoDigits pre _ p, find_runs-Digits [] ds _ d, find_runs-flush ds x sep _ q)
      (rw (find_all-one [] ns post tt n f r) (flush-cons ds (ns ∷ []) e))
