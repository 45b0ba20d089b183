-- ===== src/Base/Text.antt =====
-- Python's str methods, as far as the program uses them, on texts as sequences of characters.
-- Letter case is a parameter where the program folds it: its table is Unicode's.
use Prim.Native.Char.{Char, code}
use Prim.Native.String.{◌++◌, String, compare}
use Prim.Native.Nat.{ℕ, zero, suc, Ordering}
use mathlib.Core.Bool.{Bool, true, false, ◌&&◌, ◌||◌}
use mathlib.Core.List.{List, [], ◌∷◌}
use mathlib.Core.Option.{Option, none, some}
use text.Mathlib.Text.{find?}
use office_mult_agent.Base.Tests.{leb, if◌then◌else◌, is_some}
use office_mult_agent.Base.Equality.{◌==◌, nat_eq, string_eq}

-- `not s`
abbrev pub is_empty : String → Bool
is_empty s = s == ""

-- `o or d`: an empty text gives way too.
abbrev pub or_text : Option String → String → String
or_text none d = d
or_text (some s) d = if is_empty s then d else s

-- `c.isspace()`, the characters that strip() and split() take away
unfoldable pub is_space : Char → Bool
is_space c =
    let n = code c in
    (leb 9 n && leb n 13)
    || (leb 28 n && leb n 32)
    || n == 133
    || n == 160
    || n == 5760
    || (leb 8192 n && leb n 8202)
    || n == 8232
    || n == 8233
    || n == 8239
    || n == 8287
    || n == 12288

-- `s.lstrip()`
unfoldable pub lstrip : String → String
unfolding is_space
lstrip String.[] = ""
lstrip (String.◌∷◌ c s) = let rest = lstrip s in if is_space c then rest else String.◌∷◌ c s

-- `s.rstrip()`
unfoldable pub rstrip : String → String
unfolding is_space
rstrip String.[] = ""
rstrip (String.◌∷◌ c s) =
    let rest = rstrip s in if is_empty rest && is_space c then "" else String.◌∷◌ c rest

-- `s.strip()`
unfoldable pub strip : String → String
unfolding lstrip rstrip
strip s = rstrip (lstrip s)

-- `s[:n]`
unfoldable pub take_chars : ℕ → String → String
take_chars zero s = ""
take_chars (suc n) String.[] = ""
take_chars (suc n) (String.◌∷◌ c s) = String.◌∷◌ c (take_chars n s)

abbrev add_word : String → List String → List String
add_word w ws = if is_empty w then ws else w ∷ ws

-- The word that begins the text, and the words behind it.
unfoldable pub split_from : String → String × List String
unfolding is_space
split_from String.[] = ("", [])
split_from (String.◌∷◌ c s) =
    let (w, ws) = split_from s in if is_space c then ("", add_word w ws) else (String.◌∷◌ c w, ws)

-- `s.split()`
unfoldable pub split : String → List String
unfolding split_from
split s = let (w, ws) = split_from s in add_word w ws

-- `sep.join(parts)`
unfoldable pub join : String → List String → String
join sep [] = ""
join sep (s ∷ []) = s
join sep (s ∷ t ∷ rest) = s ++ (sep ++ join sep (t ∷ rest))

-- `part in s`
unfoldable pub contains_text : String → String → Bool
contains_text part s = is_some (find? s part)

-- `a <= b` on texts
abbrev pub text_leb : String → String → Bool
text_leb a b = elim (compare a b) [ Ordering.gt ↦ false | _ ↦ true ]

-- `sorted(names)`
abbrev pub insert_name : String → List String → List String
insert_name s [] = s ∷ []
insert_name s (t ∷ ts) =
    let rest = insert_name s ts in if text_leb s t then s ∷ t ∷ ts else t ∷ rest

abbrev pub sort_names : List String → List String
sort_names [] = []
sort_names (s ∷ ss) = insert_name s (sort_names ss)
