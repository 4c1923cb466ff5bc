-- ===== src/Network/Iptables.antt =====
-- pkg/iptables/iptables.go: the running of the command. The process that is started is an argument:
-- what it does to the state of the machine, its output, and whether it fails.
use docker_analysis.Base.{
  Bool, true, false, not, ◌||◌, List, [], ◌∷◌, if◌then◌else◌, Str, codes, is_empty,
}
use docker_analysis.Base.Text.{has_prefix}

pub record Answer : Type 0 where
  pub output : Str
  pub error : Bool

-- `installed` is the result of the look-up of the command's path.
pub record Iptables (W : Type 0) : Type 0 where
  pub installed : Bool
  pub supports_xlock : Bool
  pub command : List Str → W → Answer × W

-- `strings.Contains(s, text)`
unfoldable pub has_text : Str → Str → Bool
has_text text [] = is_empty text
has_text text (x ∷ xs) = has_prefix text (x ∷ xs) || has_text text xs

module _ {W : Type 0} (ip : Iptables W) where
  abbrev pub call_args : List Str → List Str
  call_args args = if ip.supports_xlock then codes "--wait" ∷ args else args

  -- `Raw`: a message about the lock of xtables is no output.
  unfoldable pub raw : List Str → W → Answer × W
  raw args w =
      if not ip.installed
      then (record { output = []; error = true }, w)
      else let (answer, w') = ip.command (call_args args) w in
        if answer.error
        then (record { output = []; error = true }, w')
        else if has_text (codes "waiting for it to exit") answer.output
        then (record { output = []; error = false }, w')
        else (record { output = answer.output; error = false }, w')

  -- `Exists`, with the state that the call leaves.
  unfoldable pub rule_exists : List Str → W → Bool × W
  unfolding raw
  rule_exists args w = let (answer, w') = raw (codes "-C" ∷ args) w in (not answer.error, w')
