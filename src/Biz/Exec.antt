-- ===== src/Biz/Exec.antt =====
-- StreamExec of internal/biz/resource.go: the checks and defaults before the exec repository is called.
use run_all_resource.Prelude.{String, ℤ, Bool, List, str_eq, if◌then◌else◌}
use run_all_resource.Go.{plain, Result, ok, err, M, of_result, ◌>>=◌}
use run_all_resource.Go.Decimal.{format_int}
use run_all_resource.Biz.Types.{ExecOptions}
use run_all_resource.Biz.Repos.{ResourceUsecase}

abbrev pub options_of : String → ℤ → List String → Bool → String → ExecOptions
options_of namespace id command tty container = record {
  namespace = namespace;
  instance_id = format_int id;
  container_name = if str_eq container "" then format_int id else container;
  command = command;
  tty = tty;
}

-- what is passed on to the repository, or the error
unfoldable pub exec_options : String → ℤ → List String → Bool → String → Result ExecOptions
exec_options namespace id command tty container =
    if str_eq namespace ""
    then err (plain "namespace is required")
    else ok (options_of namespace id command tty container)

module _ {W : Type 0} (uc : ResourceUsecase W) where
  unfoldable pub stream_exec : String → ℤ → List String → Bool → String → M W (Unit {0})
  unfolding exec_options
  stream_exec namespace id command tty container =
      of_result (exec_options namespace id command tty container) >>= uc.exec_repo.stream_exec
