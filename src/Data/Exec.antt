-- ===== src/Data/Exec.antt =====
-- internal/data/exec.go: how StreamExec finds the pod and asks for the execution. The goroutines that it
-- starts are in Exec.
use run_all_resource.Prelude.{ℕ, ◌%◌, ◌^◌, String, append, Bool, true, List, [], ◌∷◌}
use run_all_resource.Go.{plain, wrap, M, pure, fail, on_error, ◌>>=◌, ◌>>◌}
use run_all_resource.Biz.Types.{ExecInput, ExecOptions}

-- `corev1.PodExecOptions`, with the pod it is for
pub record PodExec : Type 0 where
  pub pod : String
  pub namespace : String
  pub container : String
  pub command : List String
  pub stdin : Bool
  pub stdout : Bool
  pub stderr : Bool
  pub tty : Bool

-- The calls of client-go: the names of the pods in a namespace that a label selector takes, as many as
-- the limit says, and NewSPDYExecutor.
pub record PodClient (W : Type 0) : Type 0 where
  pub list_pods : String → String → ℕ → M W (List String)
  pub new_spdy_executor : PodExec → M W (Unit {0})

unfoldable pub pod_selector : String → String
pod_selector id = append "instance-id=" (append id ",app=instance")

unfoldable pub pod_exec : ExecOptions → String → PodExec
pod_exec opts pod = record {
  pod = pod;
  namespace = opts.namespace;
  container = opts.container_name;
  command = opts.command;
  stdin = true;
  stdout = true;
  stderr = true;
  tty = opts.tty;
}

module _ {W : Type 0} (client : PodClient W) where
  unfoldable pub first_pod : ExecOptions → List String → M W PodExec
  first_pod opts [] = fail (plain (append "pod not found for instance " opts.instance_id))
  first_pod opts (pod ∷ _) =
      client.new_spdy_executor (pod_exec opts pod) >> pure (pod_exec opts pod)

  -- StreamExec up to the start of its goroutines
  unfoldable pub prepare : ExecOptions → M W PodExec
  unfolding pod_selector first_pod
  prepare opts =
      on_error (wrap "failed to list pods")
        (client.list_pods opts.namespace (pod_selector opts.instance_id) 1)
      >>= first_pod opts

pub record TerminalSize : Type 0 where
  pub width : ℕ
  pub height : ℕ

-- `uint16(…)` of the columns and the rows
unfoldable pub size_of : ExecInput → TerminalSize
size_of i = record { width = i.cols % 2 ^ 16; height = i.rows % 2 ^ 16 }
