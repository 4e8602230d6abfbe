-- ===== src/Tests/Datatypes.antt =====
-- The text of relative durations.
use edgedb_python.Prelude.Int.{pos, negsuc}
use edgedb_python.Prelude.{◌*◌, ◌/◌, ◌%◌, ◌≡◌, refl, true, false, [], ◌∷◌, arith}
use edgedb_python.Datatypes.{RelativeDuration, text, hour, minute, second, fraction}
use edgedb_python.Datatypes.Sign.{signed, sign_is_lost, parts_of_time}

abbrev long : RelativeDuration
long = record { microseconds = pos 3605250000; days = negsuc 2; months = pos 14 }

-- P1Y2M-3DT1H5.25S
text_of_long :
    text long ≡ 80 ∷ 49 ∷ 89 ∷ 50 ∷ 77 ∷ 45 ∷ 51 ∷ 68 ∷ 84 ∷ 49 ∷ 72 ∷ 53 ∷ 46 ∷ 50 ∷ 53 ∷ 83 ∷ []
unfolding text
text_of_long = refl

sign_is_lost_example :
    text (record { microseconds = signed true (5 * 1000000); days = pos 0; months = pos 0 })
    ≡ text (record { microseconds = signed false (5 * 1000000); days = pos 0; months = pos 0 })
sign_is_lost_example = sign_is_lost 5 (pos 0) (pos 0) (omega arith) (omega arith)

parts_of_time_example :
    (hour (signed true 3723000004) ≡ signed true (3723000004 / 3600000000))
    × (minute (signed true 3723000004) ≡ signed true (3723000004 / 60000000 % 60))
    × (second (signed true 3723000004) ≡ signed true (3723000004 / 1000000 % 60))
    × (fraction (signed true 3723000004) ≡ signed true (3723000004 % 1000000))
parts_of_time_example = parts_of_time true 3723000004
