-- ===== src/RunPlan/Args/Precedence.antt =====
-- Which source of an argument wins in `buildArgs` (internal/server/runplan/resolver.go).
use lightai_go.Common.{ltb, ◌≡◌, refl, ◌≢◌, true, false, some, List, [], inl, inr, Bool-cases, ◌==◌}
use lightai_go.Text.{Text, text, text_eq, trim_space}
use lightai_go.RunPlan.Digits.{print_nat-not_flag}
use lightai_go.RunPlan.{print_nat, Map, Service, Snapshot, Input}
use lightai_go.RunPlan.Args.Service.{
  with_port, apply_service_args, effective_service_info, kept_args, build_args,
}
use lightai_go.RunPlan.Args.Laws.{last_value, last_value-set_last_flag_value}

service_host :
    (args : List Text) (svc : Service)
    → trim_space svc.listen_host ≢ []
    → (trim_space svc.listen_host == text "--host") ≡ false
    → last_value (text "--host") (apply_service_args args svc) ≡ some (trim_space svc.listen_host)
unfolding apply_service_args
service_host args svc ne other = elim (Bool-cases (trim_space svc.listen_host == [])) [
  | inl e ↦ absurd (ne ((text_eq.equal_iff _ _).0 e))
  | inr e ↦
      rw (e, apply_service_args) (last_value-set_last_flag_value (with_port args svc) _ _ other)
]

with_snapshot :
    (input : Input) (vars : Map) (s : Snapshot)
    → input.snapshot ≡ some s
    → (build_args input vars).0
      ≡ apply_service_args (kept_args s input vars) (effective_service_info input)
unfolding build_args
with_snapshot input vars s e = rw e refl

-- Whatever the layers give, the last `--host` of the arguments has the value of the service's listen
-- address, when there is a snapshot and that address is neither blank nor `--host` itself.
pub build_args_host :
    (input : Input) (vars : Map) (s : Snapshot)
    → input.snapshot ≡ some s
    → trim_space (effective_service_info input).listen_host ≢ []
    → (trim_space (effective_service_info input).listen_host == text "--host") ≡ false
    → last_value (text "--host") (build_args input vars).0
      ≡ some (trim_space (effective_service_info input).listen_host)
build_args_host input vars s e ne other =
    rw (with_snapshot input vars s e)
      (service_host (kept_args s input vars) (effective_service_info input) ne other)

service_port :
    (args : List Text) (svc : Service)
    → ltb 0 svc.app_port ≡ true
    → trim_space svc.listen_host ≡ []
    → last_value (text "--port") (apply_service_args args svc) ≡ some (print_nat svc.app_port)
unfolding apply_service_args
service_port args svc given blank =
    let unset : (trim_space svc.listen_host == []) ≡ true = (text_eq.equal_iff _ _).1 blank in
    rw unset (
      rw given (
        last_value-set_last_flag_value args (text "--port") (print_nat svc.app_port)
          (print_nat-not_flag svc.app_port _)))

-- Whatever the layers give, the last `--port` of the arguments has the service's application port,
-- when there is a snapshot, that port is positive and the service has no listen address.
pub build_args_port :
    (input : Input) (vars : Map) (s : Snapshot)
    → input.snapshot ≡ some s
    → ltb 0 (effective_service_info input).app_port ≡ true
    → trim_space (effective_service_info input).listen_host ≡ []
    → last_value (text "--port") (build_args input vars).0
      ≡ some (print_nat (effective_service_info input).app_port)
build_args_port input vars s e given blank =
    rw (with_snapshot input vars s e)
      (service_port (kept_args s input vars) (effective_service_info input) given blank)
