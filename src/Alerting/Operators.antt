-- ===== src/Alerting/Operators.antt =====
-- What the pattern of a condition makes of the operators.
use Prim.Native.Char.{code}
use nodeagentx.Prelude.{◌≡◌, refl, String, true, false, Option, none, some, arith, subst}
use nodeagentx.Prelude.Text.{join}
use nodeagentx.Alerting.Rules.{
  Operator, greater, less, greater_eq, less_eq, equal, not_equal, no_operator,
}
use nodeagentx.Alerting.Pattern.{
  is_space, skip_spaces, has_newline, match_rest, match_threshold, after, match_alternative,
  match_operator, match_condition,
}

-- The operators that the pattern offers on one line: `>=` and `<=` are not among them.
abbrev pub IsOffered : Operator → Type 0
IsOffered greater = Unit
IsOffered less = Unit
IsOffered equal = Unit
IsOffered not_equal = Unit
IsOffered _ = ⊥

-- What a match yields, if there is one.
abbrev OffersAfter : Option (Operator × String) → Type 0
OffersAfter none = Unit
OffersAfter (some (op, t)) = IsOffered op

abbrev pub Offers : Option (String × Operator × String) → Type 0
Offers none = Unit
Offers (some (m, op, t)) = IsOffered op

match_operator-OffersAfter : (s : String) → has_newline s ≡ false → OffersAfter (match_operator s)
unfolding match_operator match_alternative after has_newline match_threshold match_rest is_space
match_operator-OffersAfter String.[] n = ground arith
match_operator-OffersAfter (String.◌∷◌ c String.[]) n = ground arith
match_operator-OffersAfter (String.◌∷◌ c (String.◌∷◌ d s)) n = ground arith

has_newline-skip_spaces : (s : String) → has_newline s ≡ false → has_newline (skip_spaces s) ≡ false
unfolding has_newline skip_spaces
has_newline-skip_spaces String.[] n = refl
has_newline-skip_spaces (String.◌∷◌ c s) n = ground (arith, has_newline-skip_spaces s)

pub match_condition-Offers : (s : String) → has_newline s ≡ false → Offers (match_condition s)
unfolding match_condition has_newline
match_condition-Offers String.[] n = tt
match_condition-Offers (String.◌∷◌ c s) n =
    let tail : has_newline s ≡ false = ground arith in
    let longer = match_condition-Offers s tail in
    let here = match_operator-OffersAfter (skip_spaces s) (has_newline-skip_spaces s tail) in
    ground (arith, longer, here)

-- A condition on one line is never matched with the operator `>=` or `<=`.
pub match_condition-IsOffered :
    (s : String) {m : String} {op : Operator} {t : String}
    → has_newline s ≡ false
    → match_condition s ≡ some (m, op, t)
    → IsOffered op
match_condition-IsOffered s n h = subst Offers h (match_condition-Offers s n)

-- The text of an operator.
abbrev pub symbol : Operator → String
symbol greater = ">"
symbol less = "<"
symbol greater_eq = ">="
symbol less_eq = "<="
symbol equal = "=="
symbol not_equal = "!="
symbol no_operator = ""

-- At least one character, and no white space.
abbrev pub IsWord : String → Type 0
IsWord String.[] = ⊥
IsWord (String.◌∷◌ c String.[]) = is_space (code c) ≡ false
IsWord (String.◌∷◌ c s) = (is_space (code c) ≡ false) × IsWord s

-- A threshold on one line that does not begin with white space.
abbrev pub IsThreshold : String → Type 0
IsThreshold String.[] = ⊥
IsThreshold (String.◌∷◌ c s) = (is_space (code c) ≡ false) × (has_newline (String.◌∷◌ c s) ≡ false)

-- A condition as it is written: a metric, an operator and a threshold with single spaces between.
abbrev pub written : String → Operator → String → String
written m op t = join m (join " " (join (symbol op) (join " " t)))

match_operator-symbol :
    (op : Operator) (t : String)
    → IsOffered op
    → IsThreshold t
    → match_operator (join (symbol op) (join " " t)) ≡ some (op, t)
unfolding match_operator match_alternative after match_threshold match_rest is_space has_newline
    join
match_operator-symbol op String.[] o h = absurd h
match_operator-symbol greater (String.◌∷◌ c t) o h = ground arith
match_operator-symbol less (String.◌∷◌ c t) o h = ground arith
match_operator-symbol equal (String.◌∷◌ c t) o h = ground arith
match_operator-symbol not_equal (String.◌∷◌ c t) o h = ground arith
match_operator-symbol greater_eq (String.◌∷◌ c t) o h = absurd o
match_operator-symbol less_eq (String.◌∷◌ c t) o h = absurd o
match_operator-symbol no_operator (String.◌∷◌ c t) o h = absurd o

is_space_blank : is_space 32 ≡ true
unfolding is_space
is_space_blank = refl

skip_spaces-symbol :
    (op : Operator) (t : String)
    → IsOffered op
    → skip_spaces (join " " (join (symbol op) (join " " t))) ≡ join (symbol op) (join " " t)
unfolding skip_spaces join is_space
skip_spaces-symbol greater t o = refl
skip_spaces-symbol less t o = refl
skip_spaces-symbol equal t o = refl
skip_spaces-symbol not_equal t o = refl
skip_spaces-symbol greater_eq t o = absurd o
skip_spaces-symbol less_eq t o = absurd o
skip_spaces-symbol no_operator t o = absurd o

-- A condition written with single spaces between a metric without white space, one of the operators
-- `>`, `<`, `==`, `!=`, and a threshold on one line is matched into these three parts.
pub match_condition-written :
    (m : String) (op : Operator) (t : String)
    → IsWord m
    → IsOffered op
    → IsThreshold t
    → match_condition (written m op t) ≡ some (m, op, t)
unfolding match_condition join
match_condition-written String.[] op t w o h = absurd w
match_condition-written (String.◌∷◌ c String.[]) op t w o h =
    rw (w, is_space_blank, skip_spaces-symbol op t o, match_operator-symbol op t o h)
match_condition-written (String.◌∷◌ c (String.◌∷◌ d m)) op t (w, ws) o h =
    rw (w, match_condition-written (String.◌∷◌ d m) op t ws o h)
