-- ===== src/Service/PortConfigs/Results.antt =====
-- The response of SetInstancePort against its request.
use mathlib.Core.List.{append-nil, append_assoc}
use mathlib.Core.Path.{ap₂}
use run_all_resource.Prelude.{
  ℕ, ◌+◌, ◌≤◌, ℤ, pos, int_eq_iff, ◌≡◌, ◌≢◌, ◌↔◌, refl, sym, ap, ◌∙◌, Bool, true, some, List, [],
  ◌∷◌, ◌++◌, map, arith, length, length-map, if◌then◌else◌,
}
use run_all_resource.Go.{Texts, ok}
use run_all_resource.Go.Decimal.{itoa}
use run_all_resource.Biz.Instance.{join}
use run_all_resource.Biz.Repos.{ResourceUsecase}
use run_all_resource.Service.PortConfigs.{
  PortConfig, response_of, SetInstancePortReq, PortResult, SetInstancePortResp, handle_config,
  handle_configs, set_instance_ports,
}

abbrev pub count_success : List PortResult → ℕ
count_success [] = 0
count_success (r ∷ results) = (if r.success then 1 else 0) + count_success results

abbrev pub AllSucceed : List PortResult → Type 0
AllSucceed [] = Unit
AllSucceed (r ∷ results) = (r.success ≡ true) × AllSucceed results

abbrev pub ports_of : List PortResult → List ℕ
ports_of = map (λ r. r.port)

abbrev pub asked_ports : List PortConfig → List ℕ
asked_ports = map (λ c. c.port)

count_success-append :
    (xs : List PortResult) (r : PortResult)
    → count_success (xs ++ r ∷ []) ≡ (if r.success then count_success xs + 1 else count_success xs)
count_success-append [] r = ground arith
count_success-append (x ∷ xs) r = ground (arith, count_success-append xs r)

count_success-le : (xs : List PortResult) → count_success xs ≤ length xs
count_success-le [] = omega arith
count_success-le (x ∷ xs) = ground (arith, count_success-le xs)

count_all : (xs : List PortResult) → (count_success xs ≡ length xs) ↔ AllSucceed xs
count_all [] = ((λ h. tt), (λ h. refl))
count_all (x ∷ xs) = (
  (λ h. (
    ground (arith, count_success-le xs),
    (count_all xs).0 (ground (arith, count_success-le xs)),
  )),
  (λ h. ground (arith, (count_all xs).1 h.1)),
)

module _ {W : Type 0} (uc : ResourceUsecase W) (texts : Texts) where
  port-handle_config :
      (id : ℤ) (open_ports : Bool) (config : PortConfig) (w : W)
      → (handle_config uc texts id open_ports config w).0.port ≡ config.port
  unfolding handle_config
  port-handle_config id open_ports config w = ground arith

  -- the loop appends one result for each config, and counts the successes
  handle_configs-Appends :
      (id : ℤ) (open_ports : Bool) (configs : List PortConfig) (results : List PortResult)
      (count : ℕ) (w : W)
      → count ≡ count_success results
      → let (rs, n) = (handle_configs uc texts id open_ports configs results count w).0 in
        (news : List PortResult) × (rs ≡ results ++ news)
        × (ports_of news ≡ asked_ports configs)
        × (n ≡ count_success rs)
  unfolding handle_configs
  handle_configs-Appends id open_ports [] results count w h =
      ([], sym (append-nil results), refl, h)
  handle_configs-Appends id open_ports (config ∷ configs) results count w h =
      let (result, w') = handle_config uc texts id open_ports config w in
      let (news, appended, ports, counted) =
        handle_configs-Appends id open_ports configs (results ++ result ∷ [])
          (if result.success then count + 1 else count) w'
          (rw (count_success-append results result, h)) in
      (
        result ∷ news,
        appended ∙ append_assoc results (result ∷ []) news,
        ap₂ ◌∷◌ (port-handle_config id open_ports config w) ports,
        counted,
      )

  response-success :
      (total : ℕ) (rs : List PortResult) (n : ℕ)
      → n ≡ count_success rs
      → length rs ≡ total
      → ((response_of uc texts total (rs, n)).success ≡ true) ↔ AllSucceed rs
  unfolding response_of
  response-success total rs n counted all =
      ((λ h. (count_all rs).0 (ground arith)), (λ h. ground (arith, (count_all rs).1 h)))

  response-message :
      (total : ℕ) (rs : List PortResult) (n : ℕ)
      → n ≡ count_success rs
      → let resp = response_of uc texts total (rs, n) in
        resp.message ≡ (
          if resp.success
          then "success"
          else join
              (itoa (count_success rs) ∷ "/" ∷ itoa total ∷ " ports processed successfully" ∷ []))
  unfolding response_of
  response-message total rs n counted = rw counted refl

  -- A request with an instance and with configs is answered: one result for each config, in the order
  -- of the request and for its port, success exactly where every result is a success, and the message
  -- "success" or else how many of the ports succeeded.
  pub set_instance_ports-answers :
      (req : SetInstancePortReq) (w : W)
      → req.instance_id ≢ pos 0
      → req.port_configs ≢ []
      → (resp : SetInstancePortResp) × ((set_instance_ports uc texts (some req) w).0 ≡ ok resp)
        × (ports_of resp.results ≡ asked_ports req.port_configs)
        × ((resp.success ≡ true) ↔ AllSucceed resp.results)
        × (resp.message ≡ (
            if resp.success
            then "success"
            else join (
                itoa (count_success resp.results)
                ∷ "/"
                ∷ itoa (length req.port_configs)
                ∷ " ports processed successfully"
                ∷ [])))
  unfolding set_instance_ports
  set_instance_ports-answers req w real some_config =
      let loop =
        (handle_configs uc texts req.instance_id req.open_ports req.port_configs [] 0 w).0 in
      let (news, appended, ports, counted) =
        handle_configs-Appends req.instance_id req.open_ports req.port_configs [] 0 w refl in
      let total = length req.port_configs in
      let same_ports : ports_of loop.0 ≡ asked_ports req.port_configs =
        ap ports_of appended ∙ ports in
      let all_counted : length loop.0 ≡ total =
        sym (length-map loop.0 (λ r. r.port))
        ∙ ap length same_ports
        ∙ length-map req.port_configs (λ c. c.port) in
      (
        response_of uc texts total loop,
        ground (arith, int_eq_iff req.instance_id (pos 0)),
        same_ports,
        response-success total loop.0 loop.1 counted all_counted,
        response-message total loop.0 loop.1 counted,
      )
