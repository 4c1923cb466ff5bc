-- ===== src/Runconfig/Compare.antt =====
-- runconfig/compare.go. A nil argument is `none`.
use docker_analysis.Base.{
  Bool, true, false, ◌&&◌, ◌||◌, not, List, [], ◌∷◌, Option, none, some, all, length, nat_beq,
  if◌then◌else◌, ◌==◌, str_eq, Str,
}
use docker_analysis.Base.Int.{ℤ, pos, negsuc}
use docker_analysis.Base.Keys.{contains}
use docker_analysis.Runconfig.Config.{Config}
use docker_analysis.Runconfig.Merge.{ports_of}

abbrev pub bool_beq : Bool → Bool → Bool
bool_beq true b = b
bool_beq false b = not b

abbrev pub int_beq : ℤ → ℤ → Bool
int_beq (pos a) (pos b) = nat_beq a b
int_beq (pos a) (negsuc b) = false
int_beq (negsuc a) (pos b) = false
int_beq (negsuc a) (negsuc b) = nat_beq a b

-- `for i := 0; i < len(a); i++ { if a[i] != b[i] … }`, of lists of one length.
unfoldable pub same_texts : List Str → List Str → Bool
same_texts [] bs = true
same_texts (a ∷ as') [] = false
same_texts (a ∷ as') (b ∷ bs) = a == b && same_texts as' bs

-- Each key of the first map is one of the second.
abbrev pub keys_within : List Str → List Str → Bool
keys_within a b = all (contains b) a

unfoldable pub same_scalars : Config → Config → Bool
same_scalars a b =
    bool_beq a.attach_stdout b.attach_stdout
    && bool_beq a.attach_stderr b.attach_stderr
    && a.user == b.user
    && int_beq a.memory b.memory
    && int_beq a.memory_swap b.memory_swap
    && int_beq a.cpu_shares b.cpu_shares
    && bool_beq a.open_stdin b.open_stdin
    && bool_beq a.tty b.tty

unfoldable pub same_lengths : Config → Config → Bool
same_lengths a b =
    nat_beq (length a.cmd) (length b.cmd)
    && nat_beq (length a.env) (length b.env)
    && nat_beq (length a.port_specs) (length b.port_specs)
    && nat_beq (length (ports_of a.exposed_ports)) (length (ports_of b.exposed_ports))
    && nat_beq (length a.entrypoint) (length b.entrypoint)
    && nat_beq (length a.volumes) (length b.volumes)

unfoldable pub same_elements : Config → Config → Bool
unfolding same_texts
same_elements a b =
    same_texts a.cmd b.cmd
    && same_texts a.env b.env
    && same_texts a.port_specs b.port_specs
    && keys_within (ports_of a.exposed_ports) (ports_of b.exposed_ports)
    && same_texts a.entrypoint b.entrypoint
    && keys_within a.volumes b.volumes

unfoldable pub compare_configs : Option Config → Option Config → Bool
unfolding same_scalars same_lengths same_elements
compare_configs none b = false
compare_configs (some a) none = false
compare_configs (some a) (some b) =
    if a.open_stdin || b.open_stdin
    then false
    else if same_scalars a b
    then (if same_lengths a b then same_elements a b else false)
    else false
