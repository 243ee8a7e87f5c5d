-- ===== src/Sandbox/Decisions.antt =====
-- What the policy lets through.
use Prim.Native.Char.{Char, code}
use nodeagentx.Prelude.{
  ℕ, ◌+◌, String, ◌≡◌, refl, Bool, true, false, not, ◌&&◌, ◌||◌, none, List, [], ◌∷◌, any, All,
  is_ok, leb, str_eq, arith, Bool-cases, inl, inr, subst, eq_iff, ap, sym, ◌∙◌,
}
use nodeagentx.Prelude.Text.{is_empty, Lacks, trim_space, has_prefix, byte_length}
use nodeagentx.Sandbox.Policy.{
  Policy, contains_text, shell_metachars, contains_shell_metacharacters, in_set, is_nil, check_args,
  check_sudo, validate_command, max_bytes, check_keywords, validate_script,
}

check_args-is_ok :
    (i : ℕ) (args : List String)
    → is_ok (check_args i args) ≡ not (any contains_shell_metacharacters args)
unfolding check_args
check_args-is_ok i [] = refl
check_args-is_ok i (arg ∷ args) = ground (arith, check_args-is_ok (i + 1) args)

-- What a command has to be to run, as one condition.
abbrev pub is_permitted : Policy → String → List String → Bool
is_permitted p name args =
    not (is_empty name)
    && not (any contains_shell_metacharacters (name ∷ args))
    && not (in_set name p.blocked_commands)
    && (is_nil p.allowed_commands || in_set name p.allowed_commands)
    && (p.allow_sudo || not (str_eq name "sudo"))

-- A command is accepted exactly when its trimmed name is not empty, neither the name nor an argument
-- has a shell metacharacter, the name is not blocked, it is allowed when there is a list of allowed
-- commands, and it is not `sudo` unless the policy allows that.
pub validate_command-is_permitted :
    (p : Policy) (command : String) (args : List String)
    → is_ok (validate_command p command args) ≡ is_permitted p (trim_space command) args
unfolding validate_command check_sudo
validate_command-is_permitted p command args = ground (arith, check_args-is_ok 0 args)

check_keywords-is_ok :
    (lower : String → String) (script : String) (kws : List String)
    → is_ok (check_keywords lower script kws)
      ≡ not (any (λ kw. contains_text (lower script) (lower kw)) kws)
unfolding check_keywords
check_keywords-is_ok lower script [] = refl
check_keywords-is_ok lower script (kw ∷ kws) = ground (arith, check_keywords-is_ok lower script kws)

-- A script is accepted exactly when an interpreter is named that is allowed, if there is a list of
-- allowed ones, its size in bytes is within the limit, and no blocked keyword occurs in it once both
-- are in lower case.
pub validate_script-is_ok :
    (lower : String → String) (p : Policy) (interpreter script : String)
    → is_ok (validate_script lower p interpreter script) ≡ (
        not (is_empty interpreter)
        && (is_nil p.allowed_interpreters || in_set interpreter p.allowed_interpreters)
        && leb (byte_length script) (max_bytes p.max_script_bytes)
        && not (any (λ kw. contains_text (lower script) (lower kw)) p.blocked_keywords))
unfolding validate_script
validate_script-is_ok lower p interpreter script =
    ground (arith, check_keywords-is_ok lower script p.blocked_keywords)

contains_text-Lacks :
    (d : Char) (s : String) → contains_text s (String.◌∷◌ d String.[]) ≡ false → Lacks (code d) s
unfolding contains_text has_prefix
contains_text-Lacks d String.[] h = tt
contains_text-Lacks d (String.◌∷◌ c s) h = (ground arith, contains_text-Lacks d s (ground arith))

-- The character is a shell metacharacter by itself.
abbrev pub is_metachar : Char → Bool
is_metachar d = any (λ mc. str_eq mc (String.◌∷◌ d String.[])) shell_metachars

any-listed :
    (f : String → Bool) (y : String) (xs : List String)
    → any f xs ≡ false
    → any (λ x. str_eq x y) xs ≡ true
    → f y ≡ false
any-listed f y [] h l = cc l
any-listed f y (x ∷ xs) h l = elim (Bool-cases (str_eq x y)) [
  | inl e ↦ subst (λ z. f z ≡ false) ((eq_iff x y).0 e) (ground (arith, h))
  | inr e ↦ any-listed f y xs (ground (arith, h)) (rw e at l)
]

args-Lacks :
    (d : Char) (args : List String)
    → is_metachar d ≡ true
    → any contains_shell_metacharacters args ≡ false
    → All (Lacks (code d)) args
unfolding contains_shell_metacharacters
args-Lacks d [] m h = tt
args-Lacks d (arg ∷ args) m h = (
  contains_text-Lacks d arg (
      any-listed (λ mc. contains_text arg mc) (String.◌∷◌ d String.[]) shell_metachars
        (ground (arith, h)) m),
  args-Lacks d args m (ground (arith, h)),
)

-- An accepted command has no character in its arguments that is a shell metacharacter by itself.
validate_command-Lacks :
    (p : Policy) (command : String) (args : List String) (d : Char)
    → validate_command p command args ≡ none
    → is_metachar d ≡ true
    → All (Lacks (code d)) args
validate_command-Lacks p command args d v m =
    let ok = ap is_ok (sym v) ∙ validate_command-is_permitted p command args in
    args-Lacks d args m (ground (arith, ok))
