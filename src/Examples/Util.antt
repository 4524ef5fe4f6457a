-- ===== src/Examples/Util.antt =====
-- Runs of the utilities and their theorems at concrete inputs.
use ra_common_cpp.Base.{
  replicate, ◌≤◌, ◌≡◌, refl, not, false, List, [], ◌∷◌, Bytes, codes, list_eq, arith,
}
use ra_common_cpp.Std.Numbers.{pos}
use ra_common_cpp.Util.Nonce.{Nonce, make, contains, prune, to_prune, continue_on, run, size}
use ra_common_cpp.Util.Nonce.Window.{IsConsistent, continue_on-contains, continue_on-IsConsistent}
use ra_common_cpp.Util.Nonce.Bounds.{size_bounded, continue_on-run, run_unbounded}
use ra_common_cpp.Util.Strings.{capitalize, capitalize_from, to_upper}
use ra_common_cpp.Util.Version.{
  version_compare, equal, greater, compare_loop, next_number, segment, is_separator, take_number,
  parse_long, unless_equal, compare_parsed,
}
use ra_common_cpp.Util.Version.Digits.{digits, IsDefined}
use ra_common_cpp.Util.Version.Order.{IsAnswer, flip, version_compare_lem}
use ra_common_cpp.Util.Ids.{UniqueId}

abbrev two : List Bytes
two = codes "a" ∷ codes "b" ∷ []

-- A cache of ten ids that drops a tenth, holding two ids.
abbrev ten : Nonce
ten = record { seen = codes "b" ∷ codes "a" ∷ []; order = two; max_size = 10; prune_percent = 10 }

abbrev five : Nonce
five = record ten { max_size = 5 }

ten_reached : run (make 10 (pos 10)) two ≡ ten
unfolding run make contains list_eq
ten_reached = refl

ten-IsConsistent : IsConsistent ten
unfolding contains list_eq
ten-IsConsistent = record { same = λ id. ground arith; distinct = (refl, (refl, tt)) }

five-IsConsistent : IsConsistent five
five-IsConsistent = record { same = ten-IsConsistent.same; distinct = ten-IsConsistent.distinct }

continue_on-contains_example :
    (continue_on ten (codes "b")).1 ≡ not (contains (codes "b") (prune ten).order)
continue_on-contains_example = continue_on-contains ten (codes "b") ten-IsConsistent

continue_on-IsConsistent_example : IsConsistent (continue_on ten (codes "c")).0
continue_on-IsConsistent_example = continue_on-IsConsistent ten (codes "c") ten-IsConsistent

size_bounded_example : size (continue_on ten (codes "c")).0 ≤ 11
unfolding size to_prune
size_bounded_example = size_bounded ten (codes "c") refl (omega arith)

continue_on-run_example : (continue_on (run ten (codes "c" ∷ codes "d" ∷ [])) (codes "a")).1 ≡ false
unfolding contains size list_eq
continue_on-run_example =
    continue_on-run ten (codes "a") (codes "c" ∷ codes "d" ∷ []) ten-IsConsistent refl (omega arith)

run_unbounded_example : size (run five (codes "c" ∷ codes "d" ∷ [])) ≡ 4
unfolding contains size list_eq
run_unbounded_example =
    run_unbounded five (codes "c" ∷ codes "d" ∷ []) five-IsConsistent refl (omega arith)
      (refl, (refl, (refl, (refl, tt))))

capitalize_runs : capitalize (codes "ab cD") ≡ codes "Ab CD"
unfolding capitalize capitalize_from to_upper
capitalize_runs = refl

versions_run : version_compare (codes "1.10-x") (codes "1.9") ≡ greater
unfolding version_compare compare_loop next_number segment is_separator take_number parse_long
    unless_equal compare_parsed list_eq
versions_run = refl

version_compare_lem_example :
    (IsAnswer (version_compare (codes "1.2") (codes "1.3"))
      × IsDefined (version_compare (codes "1.2") (codes "1.3")))
    × ((version_compare (codes "1.3") (codes "1.2")
          ≡ flip (version_compare (codes "1.2") (codes "1.3")))
        × (version_compare (codes "1.2") (codes "1.2") ≡ equal))
unfolding digits
version_compare_lem_example =
    version_compare_lem (codes "1.2") (codes "1.3") (omega arith) (omega arith)

abbrev sevens : UniqueId
sevens = record { bytes = replicate 32 7 }
