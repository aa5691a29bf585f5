-- ===== src/Docker/Sessions/Uses.antt =====
-- Calls that use a live container keep the invariant of the session registry.
use henry.Prelude.{ℕ, ◌≡◌, refl, ◌∙◌, List, ◌∷◌}
use henry.Docker.Sessions.{
  Sandbox, DockerCall, exec_in, copy_in, copy_out, remove_container, remove_volume,
}
use henry.Docker.Sessions.Invariant.{Inv, UsedAlive, container_removals, volume_removals}

-- A call of Docker that removes nothing and uses only a live container.
abbrev pub IsUse : DockerCall → List DockerCall → Type 0
IsUse (exec_in a) calls = container_removals a calls ≡ 0
IsUse (copy_in a) calls = container_removals a calls ≡ 0
IsUse (copy_out a) calls = container_removals a calls ≡ 0
IsUse (remove_container a) calls = ⊥
IsUse (remove_volume a) calls = ⊥
IsUse _ calls = Unit

use-removals :
    (c : DockerCall) (cs : List DockerCall) (b : ℕ)
    → IsUse c cs
    → (container_removals b (c ∷ cs) ≡ container_removals b cs)
      × (volume_removals b (c ∷ cs) ≡ volume_removals b cs)
use-removals (remove_container a) cs b h = absurd h
use-removals (remove_volume a) cs b h = absurd h
use-removals _ cs b h = (refl, refl)

use-UsedAlive :
    (c : DockerCall) (cs : List DockerCall) → IsUse c cs → UsedAlive cs → UsedAlive (c ∷ cs)
use-UsedAlive (exec_in a) cs h u = (h, u)
use-UsedAlive (copy_in a) cs h u = (h, u)
use-UsedAlive (copy_out a) cs h u = (h, u)
use-UsedAlive _ cs h u = u

pub use-Inv :
    (w : Sandbox) (c : DockerCall)
    → Inv w
    → IsUse c w.calls
    → Inv (record w { calls = c ∷ w.calls })
use-Inv w c v h = record {
  registered = v.registered;
  reachable = v.reachable;
  cleaned = λ b t k.
      let (p, q) = use-removals c w.calls b h in (p ∙ (v.cleaned b t k).0, q ∙ (v.cleaned b t k).1);
  unborn = λ b k.
      let (p, q) = use-removals c w.calls b h in (p ∙ (v.unborn b k).0, q ∙ (v.unborn b k).1);
  fresh = v.fresh;
  used_alive = use-UsedAlive c w.calls h v.used_alive;
}
