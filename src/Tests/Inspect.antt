-- ===== src/Tests/Inspect.antt =====
-- The theorem on lib/util/inspect.js at a concrete input.
use zero_archive.Prelude.{Text, List, ◌∷◌, [], codes, true, refl, length, ◌≡◌, suc}
use zero_archive.Util.Inspect.{inspect, format}
use zero_archive.Util.Inspect.Values.{
  Value, object, Object, plain, iterable, values, value_of, string_key, new_context,
}
use zero_archive.Util.Inspect.Unseen.{Ends}
use zero_archive.Util.Inspect.Ends.{all_closed, properties_closed, all_sound}
use zero_archive.Util.Inspect.Circles.{inspect-Ends}

abbrev unchanged : Text → Text
unchanged t = t

-- An object that has itself and, twice, one empty array.
abbrev circle : List Object
circle =
    plain (codes "Object ") (
      record { key = string_key (codes "self"); descriptor = value_of (object 0) }
      ∷ record { key = string_key (codes "a"); descriptor = value_of (object 1) }
      ∷ record { key = string_key (codes "b"); descriptor = value_of (object 1) }
      ∷ [])
    ∷ iterable (codes "Array ") true (values [])
    ∷ []

circle_sound : all_sound (length circle) circle ≡ true
unfolding all_sound properties_closed all_closed
circle_sound = refl

-- The array twice, as two arguments of `console.log`.
abbrev twice : List Value
twice = object 1 ∷ object 1 ∷ []

twice_closed : all_closed (length circle) twice ≡ true
unfolding all_closed
twice_closed = refl

inspect-Ends_example :
    Ends [] (inspect unchanged true circle (suc (length circle)) (object 0) new_context)
    × Ends [] (format unchanged true circle (suc (length circle)) twice)
inspect-Ends_example =
    inspect-Ends unchanged true circle (object 0) new_context twice circle_sound refl twice_closed
