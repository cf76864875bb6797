-- ===== src/Rbac/Catalog.antt =====
-- The catalog of permissions and the built-in roles (internal/server/auth/bootstrap.go).
use lightai_go.Common.{List, [], ◌∷◌}
use lightai_go.Text.{Text, text}

pub record PermissionDef : Type 0 where
  pub code : Text
  pub scope : Text

pub record BuiltinRoleDef : Type 0 where
  pub name : Text
  pub display_name : Text
  pub description : Text
  pub permissions : List Text

abbrev pub of_tenant : Text → PermissionDef
of_tenant code = record { code = code; scope = text "tenant" }

abbrev pub of_platform : Text → PermissionDef
of_platform code = record { code = code; scope = text "platform" }

unfoldable pub permission_catalog : List PermissionDef
permission_catalog =
    of_tenant (text "dashboard:read")
    ∷ of_tenant (text "node:read")
    ∷ of_tenant (text "node:transfer")
    ∷ of_tenant (text "node_model_root:read")
    ∷ of_tenant (text "node_model_root:write")
    ∷ of_tenant (text "node_file:read")
    ∷ of_tenant (text "gpu:read")
    ∷ of_tenant (text "monitoring:read")
    ∷ of_tenant (text "log:read")
    ∷ of_tenant (text "backend:read")
    ∷ of_tenant (text "backend:write")
    ∷ of_tenant (text "backend_runtime:read")
    ∷ of_tenant (text "backend_runtime:write")
    ∷ of_tenant (text "node_runtime_override:read")
    ∷ of_tenant (text "node_runtime_override:write")
    ∷ of_tenant (text "model_artifact:read")
    ∷ of_tenant (text "model_artifact:write")
    ∷ of_tenant (text "model_deployment:read")
    ∷ of_tenant (text "model_deployment:write")
    ∷ of_tenant (text "model_deployment:start")
    ∷ of_tenant (text "model_deployment:stop")
    ∷ of_tenant (text "model_instance:read")
    ∷ of_tenant (text "model_instance:logs")
    ∷ of_tenant (text "run_plan:read")
    ∷ of_tenant (text "run_plan:preview")
    ∷ of_tenant (text "gpu_lease:read")
    ∷ of_tenant (text "gpu_lease:write")
    ∷ of_tenant (text "agent_task:read")
    ∷ of_tenant (text "agent_task:write")
    ∷ of_tenant (text "audit:read")
    ∷ of_tenant (text "membership:read")
    ∷ of_tenant (text "membership:write")
    ∷ of_tenant (text "role:read")
    ∷ of_tenant (text "role:write")
    ∷ of_tenant (text "tenant:settings:write")
    ∷ of_platform (text "platform:user:manage")
    ∷ of_platform (text "platform:tenant:manage")
    ∷ of_platform (text "platform:settings:write")
    ∷ []

unfoldable pub builtin_roles : List BuiltinRoleDef
builtin_roles =
    record {
      name = text "admin";
      display_name = text "Admin";
      description = text "Tenant administrator with full tenant scope access";
      permissions =
          text "dashboard:read"
          ∷ text "node:read"
          ∷ text "node_model_root:read"
          ∷ text "node_file:read"
          ∷ text "gpu:read"
          ∷ text "monitoring:read"
          ∷ text "log:read"
          ∷ text "backend:read"
          ∷ text "backend_runtime:read"
          ∷ text "node_runtime_override:read"
          ∷ text "model_artifact:read"
          ∷ text "model_deployment:read"
          ∷ text "model_instance:read"
          ∷ text "run_plan:read"
          ∷ text "run_plan:preview"
          ∷ text "gpu_lease:read"
          ∷ text "agent_task:read"
          ∷ text "backend_runtime:write"
          ∷ text "node_runtime_override:write"
          ∷ text "node_model_root:write"
          ∷ text "model_artifact:write"
          ∷ text "model_deployment:write"
          ∷ text "model_deployment:start"
          ∷ text "model_deployment:stop"
          ∷ text "model_instance:logs"
          ∷ text "membership:read"
          ∷ text "membership:write"
          ∷ text "role:read"
          ∷ text "role:write"
          ∷ text "node:transfer"
          ∷ text "tenant:settings:write"
          ∷ text "audit:read"
          ∷ text "gpu_lease:write"
          ∷ text "agent_task:write"
          ∷ text "backend:write"
          ∷ [];
    }
    ∷ record {
      name = text "operator";
      display_name = text "Operator";
      description = text "Tenant operator with resource management access";
      permissions =
          text "dashboard:read"
          ∷ text "node:read"
          ∷ text "node_model_root:read"
          ∷ text "node_file:read"
          ∷ text "gpu:read"
          ∷ text "monitoring:read"
          ∷ text "log:read"
          ∷ text "backend:read"
          ∷ text "backend_runtime:read"
          ∷ text "node_runtime_override:read"
          ∷ text "model_artifact:read"
          ∷ text "model_deployment:read"
          ∷ text "model_instance:read"
          ∷ text "run_plan:read"
          ∷ text "run_plan:preview"
          ∷ text "gpu_lease:read"
          ∷ text "agent_task:read"
          ∷ text "backend_runtime:write"
          ∷ text "node_runtime_override:write"
          ∷ text "node_model_root:write"
          ∷ text "model_artifact:write"
          ∷ text "model_deployment:write"
          ∷ text "model_deployment:start"
          ∷ text "model_deployment:stop"
          ∷ text "model_instance:logs"
          ∷ [];
    }
    ∷ record {
      name = text "viewer";
      display_name = text "Viewer";
      description = text "Read-only tenant access";
      permissions =
          text "dashboard:read"
          ∷ text "node:read"
          ∷ text "node_model_root:read"
          ∷ text "node_file:read"
          ∷ text "gpu:read"
          ∷ text "monitoring:read"
          ∷ text "log:read"
          ∷ text "backend:read"
          ∷ text "backend_runtime:read"
          ∷ text "node_runtime_override:read"
          ∷ text "model_artifact:read"
          ∷ text "model_deployment:read"
          ∷ text "model_instance:read"
          ∷ text "run_plan:read"
          ∷ text "run_plan:preview"
          ∷ text "gpu_lease:read"
          ∷ text "agent_task:read"
          ∷ [];
    }
    ∷ []
