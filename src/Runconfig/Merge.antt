-- ===== src/Runconfig/Merge.antt =====
-- runconfig/merge.go. `Merge` changes the user's configuration in place and may make its
-- `ExposedPorts` the image's own map, so that a port added afterwards is added to the image too.
mod Tests
pub mod Laws
use docker_analysis.Base.{
  ℕ, ◌≡◌, Bool, true, false, List, [], ◌∷◌, ◌++◌, Option, none, some, any, is_empty, if◌then◌else◌,
  ◌==◌, str_eq, Str,
}
use docker_analysis.Base.Int.{ℤ, is_zero}
use docker_analysis.Base.Keys.{add}
use docker_analysis.Base.Text.{split}
use docker_analysis.Nat.{SpecError, Parsed, ok, err, PortSet, parse_port_specs}
use docker_analysis.Runconfig.Config.{Config}

-- Each port of the first list that is missing in the second is added to it.
unfoldable pub add_all : PortSet → PortSet → PortSet
add_all [] s = s
add_all (p ∷ ps) s = add_all ps (add p s)

abbrev pub ports_of : Option PortSet → PortSet
ports_of none = []
ports_of (some ps) = ps

unfoldable pub env_key : Str → Str
unfolding split
env_key e = elim (split b'=' e) [ [] ↦ [] | key ∷ rest ↦ key ]

unfoldable pub defines : Str → List Str → Bool
unfolding env_key
defines key env = any (λ e. key == env_key e) env

-- The loop over the image's variables.
unfoldable pub merge_env : List Str → List Str → List Str
unfolding defines
merge_env user [] = user
merge_env user (e ∷ es) = merge_env (if defines (env_key e) user then user else user ++ e ∷ []) es

abbrev pub text_or : Str → Str → Str
text_or user image = if is_empty user then image else user

abbrev pub amount_or : ℤ → ℤ → ℤ
amount_or user image = if is_zero user then image else user

-- The user's ports and the image's, and whether they are one map.
pub record Exposed : Type 0 where
  pub user : Option PortSet
  pub image : Option PortSet
  pub shared : Bool

unfoldable pub merge_exposed : Option PortSet → Option PortSet → Exposed
unfolding add_all
merge_exposed user none =
    if is_empty (ports_of user)
    then record { user = none; image = none; shared = false }
    else record { user = user; image = none; shared = false }
merge_exposed user (some image) =
    if is_empty (ports_of user)
    then record { user = some image; image = some image; shared = true }
    else record { user = some (add_all image (ports_of user)); image = some image; shared = false }

-- Ports are added to the user's map, which is made if it is nil.
unfoldable pub expose : PortSet → Exposed → Exposed
unfolding add_all
expose ports x =
    let user = some (add_all ports (ports_of x.user)) in
    record x { user = user; image = if x.shared then user else x.image }

pub record Merged : Type 0 where
  pub error : Option SpecError
  pub user : Config
  pub image_exposed : Option PortSet

-- What follows the ports: the environment, the command, the directory and the volumes.
unfoldable pub merge_rest : Config → Config → Config
unfolding merge_env add_all
merge_rest user image = record user {
  env = if is_empty user.env then image.env else merge_env user.env image.env;
  cmd =
      if is_empty user.entrypoint
      then (if is_empty user.cmd then image.cmd else user.cmd)
      else user.cmd;
  entrypoint = if is_empty user.entrypoint then image.entrypoint else user.entrypoint;
  working_dir = text_or user.working_dir image.working_dir;
  volumes = if is_empty user.volumes then image.volumes else add_all image.volumes user.volumes;
}

abbrev pub with_ports : Config → Exposed → Config
with_ports user x = record user { exposed_ports = x.user }

abbrev pub merge_amounts : Config → Config → Config
merge_amounts user image = record user {
  user = text_or user.user image.user;
  memory = amount_or user.memory image.memory;
  memory_swap = amount_or user.memory_swap image.memory_swap;
  cpu_shares = amount_or user.cpu_shares image.cpu_shares;
}

-- The migration of the image's port specifications, and the rest.
unfoldable pub merge_image_specs : (Str → Bool) → Config → Config → Exposed → Merged
unfolding expose merge_rest
merge_image_specs is_ip user image x =
    if is_empty image.port_specs
    then record {
      error = none;
      user = merge_rest (with_ports user x) image;
      image_exposed = x.image;
    }
    else elim (parse_port_specs is_ip image.port_specs) [
      | err e ↦
          let x' = expose [] x in
          record { error = some e; user = with_ports user x'; image_exposed = x'.image }
      | ok (ports, _) ↦
          let x' = expose ports x in
          record {
            error = none;
            user = merge_rest (with_ports user x') image;
            image_exposed = x'.image;
          }
    ]

unfoldable pub merge : (Str → Bool) → Config → Config → Merged
unfolding merge_exposed expose merge_image_specs
merge is_ip user image =
    let u = merge_amounts user image in
    let x = merge_exposed user.exposed_ports image.exposed_ports in
    if is_empty u.port_specs
    then merge_image_specs is_ip u image x
    else elim (parse_port_specs is_ip u.port_specs) [
      | err e ↦
          let x' = expose [] x in
          record { error = some e; user = with_ports u x'; image_exposed = x'.image }
      | ok (ports, _) ↦
          let x' = expose ports x in merge_image_specs is_ip (record u { port_specs = [] }) image x'
    ]
