-- ===== src/NodeTags/Tests.antt =====
-- The parsers of tags at concrete values.
use ithiltir.Shared.{◌≡◌, refl, ◌↔◌, none, List, [], ◌∷◌}
use ithiltir.Shared.Tests.{nat_eq}
use ithiltir.Shared.Text.{Text, codes, text_eq, trim_space, is_space, contains_control, is_control}
use ithiltir.NodeTags.{
  array, ok, clean, clean_from, decode, parse, check_limits, all_fit, tag_fits, parse_stored,
}
use ithiltir.NodeTags.Limits.{
  IsTagList, parse-IsTagList, parse-parse_stored, parse_stored-IsTagList,
}

abbrev items : List Text
items = codes " eu " ∷ codes "" ∷ codes "db" ∷ codes "eu" ∷ []

abbrev tags : List Text
tags = codes "eu" ∷ codes "db" ∷ []

parsed : parse (array items) ≡ ok tags
unfolding parse check_limits decode clean clean_from trim_space is_space all_fit tag_fits
    contains_control is_control
parsed = refl

parse-IsTagList_example : IsTagList tags × (parse (array tags) ≡ ok tags)
parse-IsTagList_example = parse-IsTagList (array items) tags parsed

parse-parse_stored_example :
    (parse (array items) ≡ ok tags) ↔ (parse_stored (array items) ≡ (tags, none))
parse-parse_stored_example = parse-parse_stored (array items) tags

parse_stored-IsTagList_example :
    IsTagList ((parse_stored (array items)).0)
    × (parse (array ((parse_stored (array items)).0)) ≡ ok ((parse_stored (array items)).0))
parse_stored-IsTagList_example = parse_stored-IsTagList (array items)
