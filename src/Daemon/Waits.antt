-- ===== src/Daemon/Waits.antt =====
-- How long a client is told to wait, and how long the daemon holds its connection open.
use gpu_bouncer.Base.{
  ℕ, ◌+◌, ◌*◌, ◌/◌, ◌<◌, ◌≤◌, ◌≡◌, refl, ap, ◌∙◌, subst, String, ◌==◌, true, some, List, [], ◌∷◌,
  Bool-cases, Option-cases, inl, inr, arith, if_both,
}
use gpu_bouncer.Base.Int.{ℤ, pos, negsuc, ltb_ℤ, leb_ℤ, add_int64, add_int64_nonneg}
use gpu_bouncer.Config.Types.{Service, Config, service, second}
use gpu_bouncer.Scheduler.Types.{Action, Plan}
use gpu_bouncer.Ipc.{wait_for, client_slack}
use gpu_bouncer.Ipc.Client.{Sockets, from_milliseconds, plan_time}
use gpu_bouncer.Daemon.Execute.{
  milliseconds, announcement, max_action_bound, action_bound, longer, longest_of_actions,
  longest_action, longest_of_services, conn_budget,
}

abbrev pub AtMost : ℤ → ℤ → Type 0
AtMost a b = leb_ℤ a b ≡ true

AtMost-trans : (a b c : ℤ) → AtMost a b → AtMost b c → AtMost a c
AtMost-trans a b c h k = ground arith

action_bound-AtMost : (svc : Service) → AtMost (action_bound svc) (pos max_action_bound)
unfolding action_bound
action_bound-AtMost svc = ground arith

longer-AtMost : (a b c : ℤ) → AtMost a c → AtMost b c → AtMost (longer a b) c
longer-AtMost a b c h k = if_both (λ x. AtMost x c) (ltb_ℤ a b) b a k h

longer_left : (a b : ℤ) → AtMost a (longer a b)
longer_left a b = ground arith

longer_right : (a b : ℤ) → AtMost b (longer a b)
longer_right a b = ground arith

-- The longest over the services is at least where it starts, and each bound.
longest_of_services_start : (a : ℤ) (ss : List Service) → AtMost a (longest_of_services a ss)
unfolding longest_of_services
longest_of_services_start a [] = ground arith
longest_of_services_start a (s ∷ ss) =
    AtMost-trans a (longer a (action_bound s)) _ (longer_left a (action_bound s))
      (longest_of_services_start (longer a (action_bound s)) ss)

longest_of_services_each :
    (a : ℤ) (ss : List Service) (name : String) (svc : Service)
    → service ss name ≡ some svc
    → AtMost (action_bound svc) (longest_of_services a ss)
unfolding longest_of_services service
longest_of_services_each a [] name svc e = cc
longest_of_services_each a (s ∷ ss) name svc e =
    let next = longer a (action_bound s) in
    elim (Bool-cases (s.name == name)) [
      | inl k ↦
          let same : s ≡ svc = ground (arith, e, k) in
          AtMost-trans (action_bound svc) next _
            (subst (λ x. AtMost (action_bound x) next) same (longer_right a (action_bound s)))
            (longest_of_services_start next ss)
      | inr k ↦ longest_of_services_each next ss name svc (rw k at e)
    ]

longest_of_services-AtMost :
    (a c : ℤ) (ss : List Service)
    → AtMost a c
    → ((svc : Service) → AtMost (action_bound svc) c)
    → AtMost (longest_of_services a ss) c
unfolding longest_of_services
longest_of_services-AtMost a c [] h k = h
longest_of_services-AtMost a c (s ∷ ss) h k =
    longest_of_services-AtMost (longer a (action_bound s)) c ss
      (longer-AtMost a (action_bound s) c h (k s)) k

longest_of_actions-AtMost :
    (services : List Service) (a c : ℤ) (actions : List Action)
    → AtMost a c
    → ((name : String) (svc : Service)
        → service services name ≡ some svc
        → AtMost (action_bound svc) c)
    → AtMost (longest_of_actions services a actions) c
unfolding longest_of_actions
longest_of_actions-AtMost services a c [] h k = h
longest_of_actions-AtMost services a c (x ∷ xs) h k =
    elim (Option-cases (service services x.service)) [
      | inl e ↦ rw (e, longest_of_actions) (longest_of_actions-AtMost services a c xs h k)
      | inr (svc, e) ↦
          rw (e, longest_of_actions)
            (longest_of_actions-AtMost services (longer a (action_bound svc)) c xs
              (longer-AtMost a (action_bound svc) c h (k x.service svc e)) k)
    ]

-- What a plan may take is at most what the configuration's services may.
longest_action-AtMost :
    (cfg : Config) (plan : Plan)
    → AtMost (longest_action cfg plan) (longest_of_services (pos 0) cfg.services)
unfolding longest_action
longest_action-AtMost cfg plan =
    longest_of_actions-AtMost cfg.services (pos 0) _ plan.actions
      (longest_of_services_start (pos 0) cfg.services)
      (longest_of_services_each (pos 0) cfg.services)

wait_for_pos :
    (m : ℕ)
    → 0 < m
    → AtMost (pos m) (pos max_action_bound)
    → wait_for (pos m) ≡ pos (m + client_slack)
unfolding wait_for
wait_for_pos m h k = ground (arith, add_int64_nonneg m client_slack)

budget_above :
    (n : ℕ) (longest : ℤ)
    → 0 < n
    → AtMost (pos n) longest
    → AtMost longest (pos max_action_bound)
    → AtMost
        (pos (n + client_slack + 60 * second))
        (add_int64 (wait_for longest) (pos (60 * second)))
budget_above n (pos m) h k l =
    let positive : 0 < m = ground arith in
    rw (wait_for_pos m positive l)
      (ground (arith, add_int64_nonneg (m + client_slack) (60 * second)))
budget_above n (negsuc m) h k l = ground arith

-- What is said in whole milliseconds and read back, in nanoseconds.
from_milliseconds_whole :
    (n : ℕ)
    → AtMost (pos n) (pos max_action_bound)
    → from_milliseconds (milliseconds (pos n)) ≡ pos (n / 1_000_000 * 1_000_000)
unfolding from_milliseconds
from_milliseconds_whole n h = ground arith

-- A client to which a plan is announced whose longest action takes n nanoseconds, at least a
-- millisecond, waits for its results as many whole milliseconds as n has, and the slack, without
-- overflow; the daemon holds the connection open for at least a minute more than n and the slack.
pub conn_budget_outlasts :
    (net : Sockets) (cfg : Config) (plan : Plan) (n : ℕ)
    → longest_action cfg plan ≡ pos n
    → 1_000_000 ≤ n
    → (plan_time net (announcement cfg plan) ≡ pos (n / 1_000_000 * 1_000_000 + client_slack))
      × AtMost (pos (n + client_slack + 60 * second)) (conn_budget cfg)
unfolding conn_budget
conn_budget_outlasts net cfg plan n e h =
    let longest = longest_of_services (pos 0) cfg.services in
    let below : AtMost (pos n) longest =
      subst (λ x. AtMost x longest) e (longest_action-AtMost cfg plan) in
    let bounded : AtMost longest (pos max_action_bound) =
      longest_of_services-AtMost (pos 0) (pos max_action_bound) cfg.services refl
        action_bound-AtMost in
    let within = AtMost-trans (pos n) longest (pos max_action_bound) below bounded in
    let told = n / 1_000_000 * 1_000_000 in
    (
      ap (λ x. wait_for (from_milliseconds (milliseconds x))) e
          ∙ ap wait_for (from_milliseconds_whole n within)
          ∙ wait_for_pos told (omega (arith, h)) (ground (arith, within)),
      budget_above n longest (omega (arith, h)) below bounded,
    )
