-- ===== src/Tests/Requests.antt =====
-- The handlers of the service at concrete inputs.
use run_all_resource.Prelude.{
  ℕ, String, pos, ◌≡◌, ◌↔◌, ◌⊎◌, true, false, none, some, List, [], ◌∷◌, if◌then◌else◌,
}
use run_all_resource.Go.{Result, ok, err}
use run_all_resource.Go.Decimal.{itoa}
use run_all_resource.Biz.Instance
use run_all_resource.Biz.Instance.{create_instance, join}
use run_all_resource.Biz.Ports.{set_instance_port}
use run_all_resource.Service.Consume.{Event, consume_mq_message}
use run_all_resource.Service.Consume.Effects.{HasEffect, consume_mq_message-effect}
use run_all_resource.Service.FieldMask.{ResourceItem, empty_item, apply_resource_field_mask}
use run_all_resource.Service.FieldMask.Masked.{
  all_known, is_known, masked, unknown_path, apply_resource_field_mask-masked,
}
use run_all_resource.Service.Lifecycle.{
  InstanceReq, UpdateInstanceReq, delete_instance, stop_instance, start_instance, update_instance,
}
use run_all_resource.Service.Lifecycle.Replies.{Serves, handlers-Serves}
use run_all_resource.Service.PortConfigs.{
  PortConfig, SetInstancePortReq, SetInstancePortResp, handle_config, set_instance_ports,
}
use run_all_resource.Service.PortConfigs.Valid.{AsksFor, Handled, handle_config-Handled}
use run_all_resource.Service.PortConfigs.Results.{
  AllSucceed, count_success, ports_of, set_instance_ports-answers,
}
use run_all_resource.Tests.Sample.{empty_world, with_instance, sample, sample_texts, refused}

abbrev http_port : PortConfig
http_port = record { port = 80; protocol = ""; ingress_domain = "demo.localtest.me" }

abbrev bad_port : PortConfig
bad_port = record { port = 70000; protocol = "TCP"; ingress_domain = "" }

abbrev two_ports : SetInstancePortReq
two_ports = record {
  instance_id = pos 7;
  open_ports = true;
  port_configs = http_port ∷ bad_port ∷ [];
}

set_instance_ports-answers_example :
    (resp : SetInstancePortResp) × ((set_instance_ports
        (sample (ok tt))
        sample_texts
        (some two_ports)
        with_instance).0
      ≡ ok resp)
    × (ports_of resp.results ≡ 80 ∷ 70000 ∷ [])
    × ((resp.success ≡ true) ↔ AllSucceed resp.results)
    × (resp.message ≡ (
        if resp.success
        then "success"
        else join (
            itoa (count_success resp.results)
            ∷ "/"
            ∷ itoa 2
            ∷ " ports processed successfully"
            ∷ [])))
set_instance_ports-answers_example =
    set_instance_ports-answers (sample (ok tt)) sample_texts two_ports with_instance (λ e. cc)
      (λ e. cc)

handle_config-Handled_example :
    let uc = sample (ok tt) in
    (protocol : String) × AsksFor http_port protocol
    × Handled uc sample_texts true http_port protocol with_instance
        (set_instance_port uc (pos 7) 80 protocol true "demo.localtest.me" with_instance)
        (handle_config uc sample_texts (pos 7) true http_port with_instance)
handle_config-Handled_example =
    handle_config-Handled (sample (ok tt)) sample_texts (pos 7) true http_port with_instance

abbrev item : ResourceItem
item = record {
  instance_id = pos 7;
  name = "web";
  user_id = "u1";
  type = "instance";
  created_at = some 1;
  updated_at = some 2;
}

apply_resource_field_mask-masked_example :
    let paths : List String = "name" ∷ "userId" ∷ "name" ∷ [] in
    (apply_resource_field_mask (some item) none ≡ ok item)
    × (apply_resource_field_mask (some item) (some []) ≡ ok item)
    × (((all_known paths ≡ true)
          × (apply_resource_field_mask (some item) (some paths)
              ≡ ok (masked item paths empty_item)))
        ⊎ ((all_known paths ≡ false)
            × ((bad : String) × (is_known bad ≡ false)
                × (apply_resource_field_mask (some item) (some paths) ≡ err (unknown_path bad)))))
apply_resource_field_mask-masked_example =
    apply_resource_field_mask-masked item "name" ("userId" ∷ "name" ∷ [])

abbrev created : Event
created = record {
  event_type = "INSTANCE_CREATED";
  instance_id = pos 7;
  user_id = "u1";
  name = "web";
  spec = some (record { cpus = 2; memory_mb = 4096; gpu = 0; image = "nginx" });
}

abbrev stopped : Event
stopped = record created { event_type = "INSTANCE_STOPPED" }

abbrev decode : List ℕ → Result Event
decode body = ok created

consume_mq_message-effect_example :
    HasEffect
      (sample (ok tt))
      (ok created)
      empty_world
      (consume_mq_message (sample (ok tt)) decode [] empty_world)
consume_mq_message-effect_example = consume_mq_message-effect (sample (ok tt)) decode [] empty_world

abbrev web_req : InstanceReq
web_req = record { instance_id = pos 7 }

abbrev no_instance_update : UpdateInstanceReq
no_instance_update = record { instance_id = pos 0; cpu = 1; memory = 512; gpu = 0; image = "" }

handlers-Serves_example :
    let uc = sample (err refused) in
    Serves
      (pos 7)
      (Instance.delete_instance uc (pos 7))
      with_instance
      (delete_instance uc (some web_req) with_instance)
    × Serves
        (pos 7)
        (Instance.stop_instance uc (pos 7))
        with_instance
        (stop_instance uc (some web_req) with_instance)
    × Serves
        (pos 7)
        (Instance.start_instance uc (pos 7))
        with_instance
        (start_instance uc (some web_req) with_instance)
    × Serves
        (pos 0)
        (Instance.update_instance uc (pos 0) 1 512 0 "")
        with_instance
        (update_instance uc (some no_instance_update) with_instance)
handlers-Serves_example =
    handlers-Serves (sample (err refused)) web_req no_instance_update with_instance
