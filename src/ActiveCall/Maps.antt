-- ===== src/ActiveCall/Maps.antt =====
-- The laws of the map of registered calls.
use agentops_go.Prelude.{
  ℕ, ◌≡◌, ◌≢◌, ◌↔◌, true, Option, none, List, [], ◌∷◌, arith, if◌then◌else◌, text_eq_iff,
}
use agentops_go.ActiveCall.{Key, Entry, key_eq, lookup, delete, update}

pub key_eq_iff : (a b : Key) → (key_eq a b ≡ true) ↔ (a ≡ b)
unfolding key_eq
key_eq_iff a b = (
  λ h. ground (arith, text_eq_iff a.task_id b.task_id, text_eq_iff a.worker_id b.worker_id),
  λ e. ground (arith, e, text_eq_iff a.task_id b.task_id, text_eq_iff a.worker_id b.worker_id),
)

pub lookup-delete :
    (k j : Key) (m : List (Key × ℕ))
    → lookup j (delete k m) ≡ (if key_eq k j then none else lookup j m)
unfolding lookup delete
lookup-delete k j [] = ground arith
lookup-delete k j ((i, p) ∷ m) =
    ground (arith, key_eq_iff k j, key_eq_iff i k, key_eq_iff i j, lookup-delete k j m)

pub update_same : (h : ℕ → Option Entry) (p : ℕ) (e : Option Entry) → update h p e p ≡ e
update_same h p e = ground arith

pub update_other :
    (h : ℕ → Option Entry) (p q : ℕ) (e : Option Entry) → p ≢ q → update h p e q ≡ h q
update_other h p q e n = ground arith
