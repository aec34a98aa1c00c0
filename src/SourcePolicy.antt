-- ===== src/SourcePolicy.antt =====
-- core/s_policy.py: the source value of an output line, chosen and sanitised. `is_space` is what
-- `str.strip` takes for white space.
pub mod Sanitised
mod Tests
use aismixer.Prelude.{
  ℕ, Bool, true, false, ◌&&◌, ◌||◌, not, Option, none, some, List, [], ◌∷◌, leb, nat_beq, take, map,
  Text, codes, ◌==◌, text_eq, if◌then◌else◌,
}

-- `[A-Za-z0-9_]`
unfoldable pub is_safe : ℕ → Bool
is_safe c =
    (leb 65 c && leb c 90) || ((leb 97 c && leb c 122) || ((leb 48 c && leb c 57) || nat_beq c 95))

-- `_SAFE.sub('_', v)`
abbrev pub substitute : Text → Text
substitute [] = []
substitute (c ∷ v) = (if is_safe c then c else 95) ∷ substitute v

-- `v.replace(old, '_')`, for one character
unfoldable pub underscore : ℕ → Text → Text
underscore old [] = []
underscore old (c ∷ v) = (if nat_beq c old then 95 else c) ∷ underscore old v

-- `val or ""`
abbrev pub or_empty : Option Text → Text
or_empty none = []
or_empty (some v) = v

-- a text that is neither absent nor empty
abbrev pub given : Option Text → Bool
given none = false
given (some []) = false
given (some (c ∷ v)) = true

-- `value != "ANONYMOUS"`
abbrev pub not_anonymous : Option Text → Bool
not_anonymous none = true
not_anonymous (some v) = not (v == codes "ANONYMOUS")

module _ (is_space : ℕ → Bool) where
  abbrev pub strip_left : Text → Text
  strip_left [] = []
  strip_left (c ∷ v) = if is_space c then strip_left v else c ∷ v

  -- a blank goes if nothing but blanks comes after it
  abbrev pub push_unless_blank : ℕ → Text → Text
  push_unless_blank c [] = if is_space c then [] else c ∷ []
  push_unless_blank c (d ∷ v) = c ∷ d ∷ v

  abbrev pub strip_right : Text → Text
  strip_right [] = []
  strip_right (c ∷ v) = push_unless_blank c (strip_right v)

  unfoldable pub sanitize_s : Option Text → Text
  sanitize_s val = take 15 (substitute (strip_right (strip_left (or_empty val))))

  unfoldable pub ip_to_s : Option Text → Text
  unfolding sanitize_s underscore
  ip_to_s none = codes "ANONYMOUS"
  ip_to_s (some []) = codes "ANONYMOUS"
  ip_to_s (some (c ∷ ip)) = sanitize_s (some (underscore 58 (underscore 46 (c ∷ ip))))

  unfoldable pub choose_s_value_from_candidates :
      Option Text → Option Text → Option Text → Option Text → Text
  unfolding sanitize_s ip_to_s
  choose_s_value_from_candidates global_station_id source_name_or_id incoming_s remote_ip =
      if given global_station_id
      then sanitize_s global_station_id
      else if given source_name_or_id && not_anonymous source_name_or_id
      then sanitize_s source_name_or_id
      else if given incoming_s
      then sanitize_s incoming_s
      else ip_to_s remote_ip
