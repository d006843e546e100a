-- ===== src/Cmd/Tags.antt =====
-- cmd/tls.go: the labels and annotations that are given as key=value.
pub mod Last
use kubergrunt.Prelude.{List, [], ◌∷◌}
use kubergrunt.Strings.Dict.{Text, put}
use kubergrunt.Strings.Split.{split, join}
use mathlib.Core.List.{tail}

-- `keyValues[0]`; a split has a part.
unfoldable pub key_of_parts : List Text → Text
key_of_parts [] = []
key_of_parts (key ∷ _) = key

-- The loop over the arguments.
unfoldable pub add_tag_args : List Text → List (Text × Text) → List (Text × Text)
add_tag_args [] out = out
add_tag_args (tag_arg ∷ tag_args) out =
    let key_values = split b'=' tag_arg in
    add_tag_args tag_args (put (key_of_parts key_values) (join b'=' (tail key_values)) out)

unfoldable pub tag_args_to_map : List Text → List (Text × Text)
tag_args_to_map tag_args = add_tag_args tag_args []
