-- ===== src/Timestamp/Tests.antt =====
-- The text forms of a timestamp, at concrete values.
use lohpi.Common.{codes, format_error, ok, err, panic, ℕ, ◌≡◌, refl, List, [], ◌∷◌, ◌++◌, arith}
use lohpi.Timestamp.{is_digit, to_timestamppb}
use lohpi.Timestamp.Format.{NoDigits}
use lohpi.Timestamp.Print.{print, to_timestamppb-print, to_timestamppb_panics}

-- "seconds:12 nanos:5" and "seconds:12"
abbrev before : List ℕ
before = codes "seconds:"

abbrev between : List ℕ
between = codes "nanos:"

before-NoDigits : NoDigits before
unfolding is_digit
before-NoDigits = ground arith

between-NoDigits : NoDigits (b' ' ∷ between)
unfolding is_digit
between-NoDigits = ground arith

reads_two : to_timestamppb (codes "seconds:12 nanos:5") ≡ ok (record { seconds = 12; nanos = 5 })
unfolding to_timestamppb is_digit
reads_two = refl

reads_none : to_timestamppb (codes "<nil>") ≡ err format_error
unfolding to_timestamppb is_digit
reads_none = refl

to_timestamppb-print_example :
    to_timestamppb (before ++ (print 12 ++ ((b' ' ∷ between) ++ (print 5 ++ []))))
    ≡ ok (record { seconds = 12; nanos = 5 })
to_timestamppb-print_example =
    to_timestamppb-print before between [] b' ' 12 5 before-NoDigits between-NoDigits tt
      (omega arith) (omega arith)

to_timestamppb_panics_example : to_timestamppb (before ++ (print 12 ++ [])) ≡ panic
to_timestamppb_panics_example = to_timestamppb_panics before [] 12 before-NoDigits tt
