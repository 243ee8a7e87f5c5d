-- ===== src/Tests/Sandbox.antt =====
-- Runs of the policy and of the streamer.
use nodeagentx.Prelude.{is_ok, concat, ◌≡◌, refl, false, none, some, List, [], ◌∷◌}
use nodeagentx.Prelude.Int.{pos}
use nodeagentx.Prelude.Text.{is_empty, trim_space, trim_left, trim_right, is_white, has_prefix}
use nodeagentx.Sandbox.Policy.{
  Policy, contains_text, in_set, contains_shell_metacharacters, check_args, check_sudo,
  validate_command, metacharacters_in_argument,
}
use nodeagentx.Sandbox.Decisions.{is_permitted, validate_command-is_permitted}
use nodeagentx.Sandbox.Streamer.{
  flush, stream_run, new_output_streamer, writes, appends, flushes, StreamOp, stream_run-delivers,
}

abbrev policy : Policy
policy = record {
  allowed_commands = [];
  blocked_commands = " rm " ∷ [];
  blocked_keywords = "mkfs" ∷ [];
  allowed_interpreters = "bash" ∷ [];
  max_script_bytes = pos 8;
  allow_sudo = false;
}

trims : validate_command policy " ls" ("a;b" ∷ []) ≡ some (metacharacters_in_argument 0)
unfolding validate_command trim_space trim_left trim_right is_white is_empty has_prefix
    contains_text in_set contains_shell_metacharacters check_args check_sudo
trims = refl

-- Only the bare name is looked at.
sudo_by_path : validate_command policy "/usr/bin/sudo" [] ≡ none
unfolding validate_command trim_space trim_left trim_right is_white is_empty has_prefix
    contains_text in_set contains_shell_metacharacters check_args check_sudo
sudo_by_path = refl

validate_command-is_permitted_example :
    is_ok (validate_command policy " ls " ("-l" ∷ [])) ≡ is_permitted policy "ls" ("-l" ∷ [])
unfolding trim_space trim_left trim_right is_white is_empty
validate_command-is_permitted_example = validate_command-is_permitted policy " ls " ("-l" ∷ [])

abbrev stream_ops : List StreamOp
stream_ops =
    writes (1 ∷ []) ∷ appends (2 ∷ []) ∷ writes (3 ∷ 4 ∷ []) ∷ flushes ∷ appends (5 ∷ []) ∷ []

stream_run-delivers_example :
    let os = flush (stream_run stream_ops (new_output_streamer 2)) in
    (os.buf ≡ []) × (concat os.sent ≡ 1 ∷ 2 ∷ 3 ∷ 4 ∷ 5 ∷ [])
stream_run-delivers_example = stream_run-delivers 2 stream_ops
