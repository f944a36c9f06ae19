-- ===== src/System/Runs/Worker.antt =====
-- A pass of the pending worker and the invariant of the table.
use lora_mqtt.Prelude.{ℕ, suc, ◌≡◌, refl, ap, ◌∙◌, [], ◌∷◌, none, length, All, arith}
use lora_mqtt.Pending.{PendingItem, Slot, Table}
use lora_mqtt.Pending.Lookup.{device, UniqueIds}
use lora_mqtt.Gate.{Config, Env}
use lora_mqtt.Worker.{serve_pending, serve_invite, serve_send, serve_slot, worker_pass}
use lora_mqtt.System.Slots.{IsOk, serve_pending-IsSane}
use lora_mqtt.System.Table.{IsWf}

serve_pending-nodeid :
    (c : Config) (env : Env) (e : PendingItem) → (serve_pending c env e).0.nodeid ≡ e.nodeid
unfolding serve_pending serve_invite serve_send
serve_pending-nodeid c env e = ground arith

serve_slot_same :
    (c : Config) (env : Env) (s : Slot)
    → ((serve_slot c env s).0.free ≡ s.free) × ((serve_slot c env s).0.nodeid ≡ s.nodeid)
unfolding serve_slot
serve_slot_same c env s = ground (arith, serve_pending-nodeid c env s.item)

serve_slot-IsOk : (c : Config) (env : Env) (s : Slot) → IsOk s → IsOk (serve_slot c env s).0
unfolding serve_slot
serve_slot-IsOk c env s h = ground (arith, serve_pending-IsSane c env s.item h.0, h.1)

worker_pass_absent :
    (c : Config) (envs : ℕ → Env) (t : Table) (j : ℕ)
    → device t j ≡ none
    → device (worker_pass c envs t).0 j ≡ none
unfolding worker_pass device
worker_pass_absent c envs [] j h = refl
worker_pass_absent c envs (s ∷ t) j h =
    ground (arith, serve_slot_same c (envs 0) s, worker_pass_absent c (λ i. envs (suc i)) t j)

worker_pass-UniqueIds :
    (c : Config) (envs : ℕ → Env) (t : Table) → UniqueIds t → UniqueIds (worker_pass c envs t).0
unfolding worker_pass
worker_pass-UniqueIds c envs [] u = u
worker_pass-UniqueIds c envs (s ∷ t) u = (
  λ q. ground (
    arith,
    serve_slot_same c (envs 0) s,
    worker_pass_absent c (λ i. envs (suc i)) t s.nodeid,
    u.0,
  ),
  worker_pass-UniqueIds c (λ i. envs (suc i)) t u.1,
)

worker_pass-IsOk :
    (c : Config) (envs : ℕ → Env) (t : Table) → All IsOk t → All IsOk (worker_pass c envs t).0
unfolding worker_pass
worker_pass-IsOk c envs [] h = h
worker_pass-IsOk c envs (s ∷ t) h =
    (serve_slot-IsOk c (envs 0) s h.0, worker_pass-IsOk c (λ i. envs (suc i)) t h.1)

length-worker_pass :
    (c : Config) (envs : ℕ → Env) (t : Table) → length (worker_pass c envs t).0 ≡ length t
unfolding worker_pass
length-worker_pass c envs [] = refl
length-worker_pass c envs (s ∷ t) = ap suc (length-worker_pass c (λ i. envs (suc i)) t)

pub worker_pass-IsWf :
    (c : Config) (envs : ℕ → Env) (t : Table) → IsWf t → IsWf (worker_pass c envs t).0
worker_pass-IsWf c envs t w = record {
  ids = worker_pass-UniqueIds c envs t w.ids;
  slots = worker_pass-IsOk c envs t w.slots;
  size = length-worker_pass c envs t ∙ w.size;
}
