-- ===== src/Access.antt =====
-- server/cawl_core/access.py: how clients reach the SSH server of an environment.
use cawl.Prelude.{Text, Option, [], codes, ◌∷◌, ◌++◌, some, none}
use cawl.Params.Templates.{quote}

-- The providers: a bridge, a bridge behind a jump host, and a tailnet (key, tailnet, tags).
pub data AccessProvider : Type 0 where
  bridge_access : AccessProvider
  jump_access : Text → AccessProvider
  tailscale_access : Text → Text → Text → AccessProvider

abbrev advertised : Text → Text
advertised [] = []
advertised (c ∷ tags) = codes " --advertise-tags=" ++ quote (c ∷ tags)

abbrev newline : Text
newline = b'\n' ∷ []

abbrev join_script : Text → Text → Text → Text
join_script authkey id tags =
    codes "set -e"
    ++ newline
    ++ (codes "            systemctl start tailscaled 2>/dev/null || true" ++ newline)
    ++ (codes "            for i in $(seq 1 30); do" ++ newline)
    ++ (codes "                systemctl is-active --quiet tailscaled && break" ++ newline)
    ++ (codes "                sleep 1" ++ newline)
    ++ (codes "            done" ++ newline)
    ++ (codes "            tailscale up --authkey=" ++ quote authkey)
    ++ (codes "                 --accept-dns=false --hostname="
        ++ quote id
        ++ advertised tags
        ++ newline)
    ++ codes "        "

unfoldable boot_script : AccessProvider → Text → Text
boot_script (tailscale_access authkey tailnet tags) id = join_script authkey id tags
boot_script _ id = []

unfoldable pub ssh_host : AccessProvider → Text → Option Text → Option Text
ssh_host (tailscale_access authkey tailnet tags) id ip = some (id ++ (b'.' ∷ tailnet))
ssh_host _ id ip = ip

unfoldable pub ssh_jump : AccessProvider → Text → Option Text
ssh_jump (jump_access jump) id = some jump
ssh_jump _ id = none
