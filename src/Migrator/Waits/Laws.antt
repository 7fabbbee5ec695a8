-- ===== src/Migrator/Waits/Laws.antt =====
-- What the waits of the manager leave alone, and when they give up,
-- cmd/signozschemamigrator/schema_migrator/manager.go.
use k_o11y_otel_gateway.Prelude.{
  ℕ, zero, suc, String, Option, none, some, List, [], ◌∷◌, ◌≡◌, refl, arith, if◌then◌else◌, ◌==◌,
  ◌∙◌,
}
use k_o11y_otel_gateway.Prelude.Results.{Result, ok, err}
use k_o11y_otel_gateway.Migrator.Server.{
  Server, IsLawful, Keeps, Attempt, pending, coordination_error, refused,
}
use k_o11y_otel_gateway.Migrator.Waits.{
  join_with, then_try, polled, poll, attempted, each_host, all_hosts, wait_mutations_on_host,
  wait_mutations, attempts, get_distributed_ddl_queue, wait_ddl, wait_queue,
}

module _ {S : Type 0} (v : Server S) where
  Keeps-trans : (s t u : S) → Keeps v s t → Keeps v t u → Keeps v s u
  Keeps-trans s t u a c = c ∙ a

  polled-Keeps :
      (s : S) (x : S × Result ℕ) (again : S → S × Option String)
      → Keeps v s x.0
      → ((t : S) → Keeps v t (again t).0)
      → Keeps v s (polled x again).0
  polled-Keeps s (t, err e) again k h = k
  polled-Keeps s (t, ok zero) again k h = k
  polled-Keeps s (t, ok (suc n)) again k h = Keeps-trans s t _ k (h t)

  poll-Keeps :
      (select : S → S × Result ℕ)
      → ((s : S) → Keeps v s (select s).0)
      → (budget : ℕ) (s : S) → Keeps v s (poll select budget s).0
  unfolding poll
  poll-Keeps select keeps zero s = refl
  poll-Keeps select keeps (suc budget) s =
      polled-Keeps s (select s) _ (keeps s) (λ t. poll-Keeps select keeps budget t)

  join_with-Keeps :
      (s : S) (message : String) (x : S × Option String)
      → Keeps v s x.0
      → Keeps v s (join_with message x).0
  join_with-Keeps s message (t, none) k = k
  join_with-Keeps s message (t, some e) k = k

  then_try-Keeps :
      (s : S) (x : S × Option String) (next : S → S × Option String)
      → Keeps v s x.0
      → ((t : S) → Keeps v t (next t).0)
      → Keeps v s (then_try x next).0
  then_try-Keeps s (t, none) next k h = Keeps-trans s t _ k (h t)
  then_try-Keeps s (t, some e) next k h = k

  each_host-Keeps :
      (wait : String → S → S × Option String)
      → ((host : String) (s : S) → Keeps v s (wait host s).0)
      → (hosts : List String) (s : S) → Keeps v s (each_host wait hosts s).0
  unfolding each_host
  each_host-Keeps wait keeps [] s = refl
  each_host-Keeps wait keeps (host ∷ hosts) s =
      then_try-Keeps s (wait host s) _ (keeps host s) (λ t. each_host-Keeps wait keeps hosts t)

  all_hosts-Keeps :
      (wait : String → S → S × Option String)
      → ((host : String) (s : S) → Keeps v s (wait host s).0)
      → (s : S) (x : S × Result (List String)) → Keeps v s x.0
      → Keeps v s (all_hosts wait x).0
  all_hosts-Keeps wait keeps s (t, err e) k = k
  all_hosts-Keeps wait keeps s (t, ok hosts) k =
      Keeps-trans s t _ k (each_host-Keeps wait keeps hosts t)

  attempted-Keeps :
      (s : S) (x : S × Attempt) (again : S → S × Result ℕ)
      → Keeps v s x.0
      → ((t : S) → Keeps v t (again t).0)
      → Keeps v s (attempted x again).0
  attempted-Keeps s (t, pending n) again k h = k
  attempted-Keeps s (t, coordination_error) again k h = Keeps-trans s t _ k (h t)
  attempted-Keeps s (t, refused e) again k h = k

  module _ (l : IsLawful v) where
    attempts-Keeps : (n : ℕ) (s : S) → Keeps v s (attempts v n s).0
    unfolding attempts
    attempts-Keeps zero s = refl
    attempts-Keeps (suc n) s =
        attempted-Keeps s (v.select_ddl s) _ (l.ddl_keeps s) (λ t. attempts-Keeps n t)

    pub wait_mutations-Keeps : (s : S) → Keeps v s (wait_mutations v s).0
    unfolding wait_mutations wait_mutations_on_host
    wait_mutations-Keeps s =
        all_hosts-Keeps _
          (λ host t.
            join_with-Keeps t _ _
              (poll-Keeps (v.select_mutations host) (λ u. l.mutations_keep host u) (v.budget t) t))
          s (v.host_addrs s) (l.hosts_keep s)

    pub wait_ddl-Keeps : (s : S) → Keeps v s (wait_ddl v s).0
    unfolding wait_ddl get_distributed_ddl_queue
    wait_ddl-Keeps s = poll-Keeps _ (λ t. attempts-Keeps 10 t) (v.budget s) s

    pub wait_queue-Keeps : (d table : String) (s : S) → Keeps v s (wait_queue v d table s).0
    unfolding wait_queue
    wait_queue-Keeps d table s = join_with-Keeps s _ _ (
        all_hosts-Keeps _ (λ host t. l.queue_keeps host d table t) s (v.host_addrs s)
          (l.hosts_keep s))

-- The queue is taken for empty when it cannot be read.
module _ {S : Type 0} (v : Server S)
    (unread : (s : S) → (v.select_ddl s).1 ≡ coordination_error) where
  attempts-unread : (n : ℕ) (s : S) → (attempts v n s).1 ≡ ok 0
  unfolding attempts
  attempts-unread zero s = refl
  attempts-unread (suc n) s = ground (arith, unread s, attempts-unread n (v.select_ddl s).0)

  -- When every select of the queue fails with the coordination error that is retried, the wait ends
  -- without an error, unless the backoff allows no select at all.
  pub wait_ddl-unread :
      (s : S) → (wait_ddl v s).1 ≡ (if v.budget s == 0 then some "backoff stopped" else none)
  unfolding wait_ddl get_distributed_ddl_queue poll
  wait_ddl-unread s =
      elim (v.budget s)
        as (λ b.
          (poll (get_distributed_ddl_queue v) b s).1
          ≡ (if b == 0 then some "backoff stopped" else none)) [
            | zero ↦ refl
            | suc b ↦ ground (arith, attempts-unread 10 s)
          ]
