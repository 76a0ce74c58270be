-- ===== src/ToolNames.antt =====
-- core/openai_tool_names.py: OpenAIToolNameCodec. A hexdigest is an argument: it stands for
-- `hashlib.sha256(text.encode("utf-8")).hexdigest()`.
pub mod Coding
pub mod Searching
pub mod Roundtrip
pub mod Portable
mod Samples
use design.Common.{
  ℕ, zero, suc, ◌+◌, ◌/◌, ◌%◌, Bool, true, false, not, ◌&&◌, ◌||◌, Option, none, some, is_some,
  from_option, List, [], ◌∷◌, ◌++◌, ◌==◌, leb, ltb, length, if◌then◌else◌, filter, eq_text,
  less_text, has_text, get, put,
}

abbrev pub Name : Type 0
Name = List ℕ

abbrev pub max_length : ℕ
max_length = 64

abbrev pub digest_length : ℕ
digest_length = 16

-- `[A-Za-z0-9_-]`.
abbrev pub is_portable_character : ℕ → Bool
is_portable_character c =
    (leb 97 c && leb c 122)
    || (leb 65 c && leb c 90)
    || (leb 48 c && leb c 57)
    || (c == 95)
    || (c == 45)

unfoldable pub all_portable : Name → Bool
all_portable [] = true
all_portable (c ∷ s) = is_portable_character c && all_portable s

abbrev pub is_given_name : Name → Bool
is_given_name [] = false
is_given_name (c ∷ s) = true

-- `_PORTABLE_TOOL_NAME.fullmatch`.
abbrev pub is_portable : Name → Bool
is_portable name = is_given_name name && (leb (length name) max_length && all_portable name)

-- `_INVALID_TOOL_NAME_CHARACTERS.sub("_", name)`: a run of other characters becomes one `_`.
unfoldable pub sub_invalid : (in_run : Bool) → Name → Name
sub_invalid in_run [] = []
sub_invalid in_run (c ∷ s) =
    if is_portable_character c
    then c ∷ sub_invalid false s
    else (if in_run then sub_invalid true s else 95 ∷ sub_invalid true s)

abbrev pub is_separator : ℕ → Bool
is_separator c = (c == 95) || (c == 45)

-- `lstrip("_-")` and `rstrip("_-")`.
unfoldable pub lstrip : Name → Name
lstrip [] = []
lstrip (c ∷ s) = if is_separator c then lstrip s else c ∷ s

unfoldable pub rstrip : Name → Name
rstrip [] = []
rstrip (c ∷ s) = let r = rstrip s in if is_separator c && not (is_given_name r) then [] else c ∷ r

-- `text[:n]`.
unfoldable pub take : ℕ → Name → Name
take zero s = []
take (suc n) [] = []
take (suc n) (c ∷ s) = c ∷ take n s

-- `text or "tool"`.
abbrev pub or_tool : Name → Name
or_tool s = if is_given_name s then s else 116 ∷ 111 ∷ 111 ∷ 108 ∷ []

unfoldable pub readable : Name → Name
unfolding sub_invalid lstrip rstrip take
readable name = or_tool (rstrip (take 47 (or_tool (rstrip (lstrip (sub_invalid false name))))))

-- A number in decimal digits; the fuel is above their number.
unfoldable pub digits : (fuel n : ℕ) → Name
digits zero n = []
digits (suc fuel) n =
    let rest = digits fuel (n / 10) in
    if ltb n 10 then (48 + n) ∷ [] else rest ++ ((48 + n % 10) ∷ [])

abbrev pub digest_input : Name → (attempt : ℕ) → Name
digest_input name zero = name
digest_input name (suc n) = name ++ 0 ∷ digits (suc (suc n)) (suc n)

-- The two dictionaries, and the set of the names that stay as they are.
pub record Codec : Type 0 where
  pub original_to_alias : List (Name × Name)
  pub alias_to_original : List (Name × Name)
  pub unchanged_names : List Name

-- `sorted` of a set.
unfoldable pub insert_sorted : Name → List Name → List Name
unfolding eq_text less_text
insert_sorted name [] = name ∷ []
insert_sorted name (n ∷ ns) =
    if eq_text n name
    then n ∷ ns
    else (if less_text name n then name ∷ n ∷ ns else n ∷ insert_sorted name ns)

unfoldable pub sorted : List Name → List Name
unfolding insert_sorted
sorted [] = []
sorted (n ∷ ns) = insert_sorted n (sorted ns)

abbrev pub portable_names : List Name → List Name
portable_names names = filter is_portable (filter is_given_name names)

abbrev pub other_names : List Name → List Name
other_names names = sorted (filter (λ n. not (is_portable n)) (filter is_given_name names))

module _ (hexdigest : Name → Name) where
  unfoldable pub alias_of : Name → (attempt : ℕ) → Name
  unfolding readable take digits
  alias_of name attempt =
      readable name ++ 95 ∷ take digest_length (hexdigest (digest_input name attempt))

  -- The loop of `_unique_alias` for so many attempts: `none` says that it still searches.
  unfoldable pub search_alias :
      (fuel : ℕ) → Name → (reserved : List Name) → (attempt : ℕ) → Option Name
  unfolding alias_of has_text
  search_alias zero name reserved attempt = none
  search_alias (suc fuel) name reserved attempt =
      let rest = search_alias fuel name reserved (suc attempt) in
      let alias = alias_of name attempt in if has_text alias reserved then rest else some alias

  abbrev pub unique_alias : (attempts : ℕ) → Name → (reserved : List Name) → Option Name
  unique_alias attempts name reserved = search_alias attempts name reserved 0

  -- The loop of `from_names` over the names that are not portable.
  unfoldable pub assign : (attempts : ℕ) → List Name → (reserved : List Name) → Codec → Option Codec
  unfolding search_alias put
  assign attempts [] reserved c = some c
  assign attempts (name ∷ names) reserved c =
      from_option (unique_alias attempts name reserved) none λ alias.
        assign attempts names (alias ∷ reserved) (record c {
          original_to_alias = put name alias c.original_to_alias;
          alias_to_original = put alias name c.alias_to_original;
        })

  unfoldable pub from_names : (attempts : ℕ) → List Name → Option Codec
  unfolding assign sorted filter
  from_names attempts names = assign attempts (other_names names) (portable_names names) (record {
    original_to_alias = [];
    alias_to_original = [];
    unchanged_names = portable_names names;
  })

unfoldable pub encode : Codec → Name → Name
unfolding get
encode c name = from_option (get name c.original_to_alias) name (λ alias. alias)

unfoldable pub decode : Codec → Name → Name
unfolding get
decode c name = from_option (get name c.alias_to_original) name (λ original. original)

abbrev pub has_aliases : Codec → Bool
has_aliases c = ltb 0 (length c.original_to_alias)

abbrev pub is_alias : Codec → Name → Bool
is_alias c value = is_some (get value c.alias_to_original)

abbrev pub is_unchanged_name : Codec → Name → Bool
is_unchanged_name c value = has_text value c.unchanged_names

unfoldable pub starts_with : Name → (prefix : Name) → Bool
starts_with s [] = true
starts_with [] (d ∷ p) = false
starts_with (c ∷ s) (d ∷ p) = c == d && starts_with s p

unfoldable pub any_prefixed : Name → List (Name × Name) → Bool
unfolding eq_text starts_with
any_prefixed value [] = false
any_prefixed value ((alias, original) ∷ rest) =
    (not (eq_text alias value) && starts_with alias value) || any_prefixed value rest

abbrev pub is_alias_prefix : Codec → Name → Bool
is_alias_prefix c value = is_given_name value && any_prefixed value c.alias_to_original
