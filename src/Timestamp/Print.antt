-- ===== src/Timestamp/Print.antt =====
-- Decimal numbers as protobuf prints them, and what `toTimestamppb` makes of a printed timestamp.
use lohpi.Common.{
  ltb, if◌then◌else◌, ltb→lt, Bool-cases, ok, panic, ℕ, zero, suc, ◌+◌, ◌-◌, ◌*◌, ◌/◌, ◌%◌, ◌^◌,
  ◌<◌, ◌≡◌, refl, ◌≢◌, inl, inr, true, List, [], ◌∷◌, ◌++◌, arith,
}
use lohpi.Timestamp.{
  is_digit, flush, find_runs, find_all, decimal, parse_int, from_unix, from_runs, to_timestamppb,
}
use lohpi.Timestamp.Format.{Digits, NoDigits, find_all-one, find_all-two}

-- the decimal digits of a number; `n + 1` rounds are enough
print_fuel : ℕ → ℕ → List ℕ
print_fuel zero n = []
print_fuel (suc f) n =
    let rest = print_fuel f (n / 10) in
    if ltb n 10 then (n + b'0') ∷ [] else rest ++ (n % 10 + b'0') ∷ []

unfoldable pub print : ℕ → List ℕ
unfolding print_fuel
print n = print_fuel (suc n) n

decimal-snoc :
    (acc : ℕ) (s : List ℕ) (c : ℕ) → decimal acc (s ++ c ∷ []) ≡ decimal acc s * 10 + (c - b'0')
unfolding decimal
decimal-snoc acc [] c = refl
decimal-snoc acc (x ∷ s) c = decimal-snoc (acc * 10 + (x - b'0')) s c

decimal-print_fuel : (f n : ℕ) → n < f → decimal 0 (print_fuel f n) ≡ n
unfolding print_fuel
decimal-print_fuel zero n h = absurd (omega arith)
decimal-print_fuel (suc f) n h = elim (Bool-cases (ltb n 10)) [
  | inl small ↦ rw small (unfold decimal in omega arith)
  | inr large ↦
      rw (large, decimal-snoc 0 (print_fuel f (n / 10)) (n % 10 + b'0'))
        (ground (arith, decimal-print_fuel f (n / 10)))
]

pub decimal-print : (n : ℕ) → decimal 0 (print n) ≡ n
unfolding print
decimal-print n = decimal-print_fuel (suc n) n (omega arith)

is_digit-add : (d : ℕ) → d < 10 → is_digit (d + b'0') ≡ true
unfolding is_digit
is_digit-add d h = ground arith

Digits-snoc : (s : List ℕ) (c : ℕ) → Digits s → is_digit c ≡ true → Digits (s ++ c ∷ [])
Digits-snoc [] c h d = (d, tt)
Digits-snoc (x ∷ s) c h d = (h.0, Digits-snoc s c h.1 d)

print_fuel-Digits : (f n : ℕ) → Digits (print_fuel f n)
unfolding print_fuel
print_fuel-Digits zero n = tt
print_fuel-Digits (suc f) n = elim (Bool-cases (ltb n 10)) [
  | inl small ↦ rw small (is_digit-add n (ltb→lt n 10 small), tt)
  | inr large ↦ rw large (
      Digits-snoc (print_fuel f (n / 10)) (n % 10 + b'0') (print_fuel-Digits f (n / 10))
        (is_digit-add (n % 10) (omega arith)))
]

pub print-Digits : (n : ℕ) → Digits (print n)
unfolding print
print-Digits n = print_fuel-Digits (suc n) n

snoc-ne-nil : (s : List ℕ) (c : ℕ) → s ++ c ∷ [] ≢ []
snoc-ne-nil [] c h = cc
snoc-ne-nil (x ∷ s) c h = cc

pub print-ne-nil : (n : ℕ) → print n ≢ []
unfolding print print_fuel
print-ne-nil n = elim (Bool-cases (ltb n 10)) [
  | inl small ↦ rw small (λ h. cc)
  | inr large ↦ rw large (snoc-ne-nil _ _)
]

-- opens the guard against the empty string
to_timestamppb-find_all :
    (s : List ℕ) (r : List ℕ) (rs : List (List ℕ))
    → find_all s ≡ r ∷ rs
    → to_timestamppb s ≡ from_runs (r ∷ rs)
unfolding to_timestamppb find_all find_runs flush
to_timestamppb-find_all [] r rs h = cc
to_timestamppb-find_all (c ∷ s) r rs h = rw h

parse_int-print : (n : ℕ) → n < 2 ^ 63 → parse_int (print n) ≡ ok n
unfolding parse_int
parse_int-print n h = rw (decimal-print n) (ground arith)

-- A text that holds two printed numbers and no other digits, as protobuf's
-- `seconds:S nanos:N` does, is read back as these seconds and nanoseconds.
pub to_timestamppb-print :
    (pre sep post : List ℕ) (x seconds nanos : ℕ)
    → NoDigits pre
    → NoDigits (x ∷ sep)
    → NoDigits post
    → seconds < 2 ^ 63
    → nanos < 1_000_000_000
    → to_timestamppb (pre ++ (print seconds ++ ((x ∷ sep) ++ (print nanos ++ post))))
      ≡ ok (record { seconds = seconds; nanos = nanos })
to_timestamppb-print pre sep post x seconds nanos p q r hs hn =
    rw
      (to_timestamppb-find_all _ _ _ (
        find_all-two pre (print seconds) x sep (print nanos) post p (print-Digits seconds)
          (print-ne-nil seconds) q (print-Digits nanos) (print-ne-nil nanos) r))
      (unfold from_runs in
        rw (parse_int-print seconds hs, parse_int-print nanos (omega arith))
          (unfold from_unix in ground arith))

-- A text that holds one printed number and no other digits makes `toTimestamppb` panic: protobuf
-- leaves out a zero field, so this is the text of every whole second.
pub to_timestamppb_panics :
    (pre post : List ℕ) (seconds : ℕ)
    → NoDigits pre
    → NoDigits post
    → to_timestamppb (pre ++ (print seconds ++ post)) ≡ panic
to_timestamppb_panics pre post seconds p q =
    rw
      (to_timestamppb-find_all _ _ _
        (find_all-one pre (print seconds) post p (print-Digits seconds) (print-ne-nil seconds) q))
      (unfold from_runs in refl)
