-- ===== src/Cmd/Tags/Last.antt =====
-- What a tag stands for (cmd/tls.go, tagArgsToMap).
use kubergrunt.Prelude.{List, [], ◌∷◌, ◌++◌, ◌≡◌, refl, sym, subst, ◌∙◌, some, false, All}
use kubergrunt.Strings.Dict.{Text, put, find, text_eq, find-put, find-put_other}
use kubergrunt.Strings.Split.{split, join, Lacks, split-append_sep, join-split}
use kubergrunt.Cmd.Tags.{key_of_parts, add_tag_args, tag_args_to_map}
use mathlib.Core.List.{tail}

-- The argument key=value.
abbrev pub tag : Text → Text → Text
tag key value = key ++ (b'=' ∷ value)

-- The argument gives another key a value.
abbrev pub OtherKey : Text → Text → Type 0
OtherKey key tag_arg = text_eq key (key_of_parts (split b'=' tag_arg)) ≡ false

add-others :
    (key : Text) (tag_args : List Text) (out : List (Text × Text))
    → All (OtherKey key) tag_args
    → find key (add_tag_args tag_args out) ≡ find key out
unfolding add_tag_args
add-others key [] out others = refl
add-others key (tag_arg ∷ tag_args) out others =
    let parts = split b'=' tag_arg in
    add-others key tag_args _ others.1
    ∙ find-put_other (key_of_parts parts) key (join b'=' (tail parts)) out others.0

add-last :
    (key value : Text) (before after : List Text) (out : List (Text × Text))
    → Lacks b'=' key
    → All (OtherKey key) after
    → find key (add_tag_args (before ++ (tag key value ∷ after)) out) ≡ some value
unfolding add_tag_args key_of_parts
add-last key value [] after out lacks others =
    subst
      (λ (parts : List Text).
        find key (add_tag_args after (put (key_of_parts parts) (join b'=' (tail parts)) out))
        ≡ some value)
      (sym (split-append_sep b'=' key value lacks))
      (rw (join-split b'=' value) (add-others key after _ others ∙ find-put key value out))
add-last key value (tag_arg ∷ before) after out lacks others =
    add-last key value before after _ lacks others

-- If the key has no equals sign, then the last argument of the form key=value gives the key its
-- value, whatever arguments come before it, and those after it give values to other keys; the value
-- may have equals signs.
pub tag_args_to_map-last :
    (key value : Text) (before after : List Text)
    → Lacks b'=' key
    → All (OtherKey key) after
    → find key (tag_args_to_map (before ++ (tag key value ∷ after))) ≡ some value
unfolding tag_args_to_map
tag_args_to_map-last key value before after lacks others =
    add-last key value before after [] lacks others
