-- ===== src/Polaris/Picker/Laws.antt =====
-- What a pick is, whatever the SDK answers.
use yggdrasil_ecosystem.Prelude.{
  ℕ, ◌≡◌, ◌⊎◌, refl, ap, inl, inr, Option, none, some, List, [], ◌∷◌, arith, get_elem?, Any,
  if_either, zero, suc, option_either, list_either, subst,
}
use yggdrasil_ecosystem.Prelude.Text.{Text, text_eq}
use yggdrasil_ecosystem.Prelude.Dict.{Dict, lookup}
use yggdrasil_ecosystem.Polaris.Picker.{
  PolarisPicker, InstancesResponse, RpcInfo, Sdk, PickError, sdk_error, no_available_instance,
  Picked, taken, rand_all_ready, client_of, pick_balanced, pick_routed, pick_filtered,
  pick_by_routing, pick_remote, rate_limit_error, breaker_error, unless_error, next,
  routers_request, filter_ready_instances,
}

-- A client of the picker's ready ones.
unfoldable pub IsReady : PolarisPicker → ℕ → Type 0
IsReady p client =
    Any (λ c. c ≡ client) p.ready_any
    ⊎ ((id : Text) × (lookup id p.ready_by_instance ≡ some client))

-- An error, or a ready client, and the picker as it was apart from its index.
pub record IsSafe (p : PolarisPicker) (picked : Picked) : Type 0 where
  pub is_ready : (client : ℕ) → picked.0 ≡ inr client → IsReady p client
  pub unchanged : record picked.1 { idx = p.idx } ≡ p

get_elem-Any : (xs : List ℕ) (i x : ℕ) → get_elem? xs i ≡ some x → Any (λ c. c ≡ x) xs
get_elem-Any [] i x h = cc h
get_elem-Any (y ∷ xs) zero x h = inl (cc h)
get_elem-Any (y ∷ xs) (suc i) x h = inr (get_elem-Any xs i x h)

error-IsSafe : (p : PolarisPicker) (err : PickError) → IsSafe p (inl err, p)
error-IsSafe p err = record { is_ready = λ client h. absurd (cc h); unchanged = refl }

client-IsSafe : (p : PolarisPicker) (client : ℕ) → IsReady p client → IsSafe p (inr client, p)
client-IsSafe p client h = record { is_ready = λ c e. subst (IsReady p) (cc e) h; unchanged = refl }

taken-IsSafe :
    (p : PolarisPicker) (o : Option ℕ)
    → ((client : ℕ) → o ≡ some client → IsReady p client)
    → IsSafe p (taken p o)
unfolding taken
taken-IsSafe p none h = record { is_ready = λ client e. absurd (cc e); unchanged = refl }
taken-IsSafe p (some c) h = record { is_ready = λ client e. h client (cc e); unchanged = refl }

rand_all_ready-IsSafe : (p : PolarisPicker) → IsSafe p (rand_all_ready p)
unfolding rand_all_ready IsReady
rand_all_ready-IsSafe p =
    list_either (IsSafe p) p.ready_any _ _ (λ _. error-IsSafe p no_available_instance)
      (λ first rest e.
        taken-IsSafe p _ (λ client at. inl (rw e (get_elem-Any (first ∷ rest) _ client at))))

client_of-IsReady :
    (p : PolarisPicker) (one : Option Text) (client : ℕ)
    → client_of p one ≡ some client
    → IsReady p client
unfolding client_of IsReady
client_of-IsReady p none client h = absurd (cc h)
client_of-IsReady p (some id) client h = inr (id, h)

pick_balanced-IsSafe :
    (p : PolarisPicker) (one : Text ⊎ Option Text) → IsSafe p (pick_balanced p one)
unfolding pick_balanced
pick_balanced-IsSafe p (inl err) = error-IsSafe p (sdk_error err)
pick_balanced-IsSafe p (inr one) =
    option_either (IsSafe p) (client_of p one) _ _ (λ _. rand_all_ready-IsSafe p)
      (λ client e. client-IsSafe p client (client_of-IsReady p one client e))

pick_routed-IsSafe :
    (sdk : Sdk) (p : PolarisPicker) (filtered : InstancesResponse)
    → IsSafe p (pick_routed sdk p filtered)
unfolding pick_routed
pick_routed-IsSafe sdk p filtered =
    list_either (IsSafe p) filtered.instances _ _
      (λ _.
        if_either (IsSafe p) _ _ _ (λ _. rand_all_ready-IsSafe p)
          (λ _. error-IsSafe p no_available_instance))
      (λ _ _ _.
        pick_balanced-IsSafe p (sdk.process_load_balance p.governance.routing.lb_policy filtered))

pick_filtered-IsSafe :
    (sdk : Sdk) (p : PolarisPicker) (left : Text ⊎ InstancesResponse)
    → IsSafe p (pick_filtered sdk p left)
unfolding pick_filtered
pick_filtered-IsSafe sdk p (inl err) = error-IsSafe p (sdk_error err)
pick_filtered-IsSafe sdk p (inr left) = pick_routed-IsSafe sdk p (filter_ready_instances p left)

pick_by_routing-IsSafe :
    (sdk : Sdk) (p : PolarisPicker) (ri : RpcInfo) (resp : InstancesResponse)
    → IsSafe p (pick_by_routing sdk p ri resp)
unfolding pick_by_routing
pick_by_routing-IsSafe sdk p ri resp =
    option_either (IsSafe p) sdk.router_err
      (pick_filtered sdk p
        (sdk.process_routers (routers_request p ri (filter_ready_instances p resp))))
      _
      (λ _.
        pick_filtered-IsSafe sdk p
          (sdk.process_routers (routers_request p ri (filter_ready_instances p resp))))
      (λ err _. error-IsSafe p (sdk_error err))

pick_remote-IsSafe :
    (sdk : Sdk) (p : PolarisPicker) (ri : RpcInfo) → IsSafe p (pick_remote sdk p ri)
unfolding pick_remote
pick_remote-IsSafe sdk p ri =
    if_either (IsSafe p) p.governance.routing.enable _ _
      (λ _.
        option_either (IsSafe p) p.instances_response (rand_all_ready p) (pick_by_routing sdk p ri)
          (λ _. rand_all_ready-IsSafe p) (λ resp _. pick_by_routing-IsSafe sdk p ri resp))
      (λ _. rand_all_ready-IsSafe p)

unless_error-IsSafe :
    (p : PolarisPicker) (err : Option PickError) (rest : Picked)
    → IsSafe p rest
    → IsSafe p (unless_error p err rest)
unfolding unless_error
unless_error-IsSafe p none rest h = h
unless_error-IsSafe p (some err) rest h = error-IsSafe p err

-- Whatever the SDK answers, a pick is an error or one of the picker's ready clients, and changes nothing
-- of the picker but its index.
pub next-IsSafe : (sdk : Sdk) (p : PolarisPicker) (ri : RpcInfo) → IsSafe p (next sdk p ri)
unfolding next
next-IsSafe sdk p ri =
    if_either (IsSafe p) _ _ _
      (λ _.
        unless_error-IsSafe p (rate_limit_error sdk p ri) _
          (unless_error-IsSafe p (breaker_error sdk p ri) _ (pick_remote-IsSafe sdk p ri)))
      (λ _. error-IsSafe p no_available_instance)

-- An error, or the pick that goes round all ready clients.
unfoldable pub IsRound : PolarisPicker → Picked → Type 0
IsRound p picked = (picked ≡ rand_all_ready p) ⊎ ((err : PickError) × (picked ≡ (inl err, p)))

unknown : {d : Dict Text ℕ} (id : Text) (client : ℕ) → d ≡ [] → lookup id d ≡ some client → ⊥
unfolding lookup
unknown id client h e = ground (arith, ap (lookup id) h, e)

pick_balanced-IsRound :
    (p : PolarisPicker) (one : Text ⊎ Option Text)
    → p.ready_by_instance ≡ []
    → IsRound p (pick_balanced p one)
unfolding pick_balanced client_of IsRound
pick_balanced-IsRound p (inl err) h = inr (sdk_error err, refl)
pick_balanced-IsRound p (inr none) h = inl refl
pick_balanced-IsRound p (inr (some id)) h =
    option_either (IsRound p) (lookup id p.ready_by_instance) _ _ (λ _. inl refl)
      (λ client e. absurd (unknown id client h e))

pick_filtered-IsRound :
    (sdk : Sdk) (p : PolarisPicker) (left : Text ⊎ InstancesResponse)
    → p.ready_by_instance ≡ []
    → IsRound p (pick_filtered sdk p left)
unfolding pick_filtered pick_routed IsRound
pick_filtered-IsRound sdk p (inl err) h = inr (sdk_error err, refl)
pick_filtered-IsRound sdk p (inr left) h =
    list_either (IsRound p) (filter_ready_instances p left).instances _ _
      (λ _.
        if_either (IsRound p) p.governance.routing.recover_all _ _ (λ _. inl refl)
          (λ _. inr (no_available_instance, refl)))
      (λ _ _ _.
        pick_balanced-IsRound p
          (sdk.process_load_balance p.governance.routing.lb_policy (filter_ready_instances p left))
          h)

-- Where no ready client has an instance identifier, routing decides nothing: whichever instances the
-- routers leave and whichever the load balancing chooses, a pick is an error or the next of all the
-- ready clients.
pub pick_remote-IsRound :
    (sdk : Sdk) (p : PolarisPicker) (ri : RpcInfo)
    → p.ready_by_instance ≡ []
    → IsRound p (pick_remote sdk p ri)
unfolding pick_remote pick_by_routing IsRound
pick_remote-IsRound sdk p ri h =
    if_either (IsRound p) p.governance.routing.enable _ _
      (λ _.
        option_either (IsRound p) p.instances_response (rand_all_ready p) (pick_by_routing sdk p ri)
          (λ _. inl refl)
          (λ resp _.
            option_either (IsRound p) sdk.router_err
              (pick_filtered sdk p
                (sdk.process_routers (routers_request p ri (filter_ready_instances p resp))))
              _
              (λ _.
                pick_filtered-IsRound sdk p
                  (sdk.process_routers (routers_request p ri (filter_ready_instances p resp))) h)
              (λ err _. inr (sdk_error err, refl))))
      (λ _. inl refl)
