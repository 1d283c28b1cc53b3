-- ===== src/NodeTags.antt =====
-- internal/nodetags/tags.go: the tags of a node. The bytes are kept as the value that encoding/json
-- reads from them; a nil slice is the empty list.
pub mod Cleaning
pub mod Limits
mod Tests
use ithiltir.Shared.{
  ℕ, zero, suc, Bool, true, false, not, ◌&&◌, ◌||◌, Option, none, some, List, [], ◌∷◌,
}
use ithiltir.Shared.Tests.{◌==◌, ltb, if◌then◌else◌}
use ithiltir.Shared.Lists.{length, contains}
use ithiltir.Shared.Text.{Text, text_eq, trim_space, contains_control}

-- Nothing or null, an array of strings, or anything else.
pub data Raw : Type 0 where
  absent malformed : Raw
  array : List Text → Raw

-- What ErrInvalid is wrapped in.
pub data Problem : Type 0 where
  not_array too_many outside_limits : Problem
  discarded : ℕ → Problem

pub data Parsed : Type 0 where
  ok : List Text → Parsed
  failed : Problem → Parsed

-- The loop of `Clean` with the tags that it has seen.
unfoldable pub clean_from : List Text → List Text → List Text
clean_from seen [] = []
clean_from seen (item ∷ items) =
    let tag = trim_space item in
    let fresh = not (tag == []) && not (contains tag seen) in
    let rest = clean_from (if fresh then tag ∷ seen else seen) items in
    if fresh then tag ∷ rest else rest

unfoldable pub clean : List Text → List Text
clean items = clean_from [] items

unfoldable pub decode : Raw → Parsed
decode absent = ok []
decode malformed = failed not_array
decode (array items) = ok (clean items)

-- Within maxTagRunes, and without control characters.
unfoldable pub tag_fits : Text → Bool
tag_fits tag = not (ltb 64 (length tag) || contains_control tag)

unfoldable pub all_fit : List Text → Bool
all_fit [] = true
all_fit (tag ∷ tags) = tag_fits tag && all_fit tags

check_limits : Parsed → Parsed
check_limits (failed problem) = failed problem
check_limits (ok tags) =
    if ltb 32 (length tags)
    then failed too_many
    else if all_fit tags
    then ok tags
    else failed outside_limits

unfoldable pub parse : Raw → Parsed
unfolding check_limits
parse raw = check_limits (decode raw)

-- The loop of `ParseStored`, with the number of tags that it has kept: the tags that it keeps from
-- here on, and the number of those that it discards.
unfoldable pub keep_tags : ℕ → List Text → List Text × ℕ
keep_tags n [] = ([], 0)
keep_tags n (tag ∷ tags) =
    let fits = tag_fits tag && ltb n 32 in
    let (kept, lost) = keep_tags (if fits then suc n else n) tags in
    if fits then (tag ∷ kept, lost) else (kept, suc lost)

warn : List Text × ℕ → List Text × Option Problem
warn (kept, zero) = (kept, none)
warn (kept, suc lost) = (kept, some (discarded (suc lost)))

keep_decoded : Parsed → List Text × Option Problem
unfolding warn
keep_decoded (failed problem) = ([], some problem)
keep_decoded (ok tags) = warn (keep_tags 0 tags)

unfoldable pub parse_stored : Raw → List Text × Option Problem
unfolding keep_decoded
parse_stored raw = keep_decoded (decode raw)

-- NormalizeJSON, to the value that it encodes.
unfoldable pub normalize_json : Raw → Parsed
normalize_json absent = failed not_array
normalize_json malformed = parse malformed
normalize_json (array items) = parse (array items)
