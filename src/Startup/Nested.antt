-- ===== src/Startup/Nested.antt =====
-- main of cmd/resource/main.go and wireApp of cmd/resource/wire_gen.go, beside the record of what is open.
use run_all_resource.Startup.Recording.{
  CleansBeside, CleansUp, Closes, Ends, Exactly, Handle, Left, Open, after-Closes, bind-Closes,
  bind-Ends, closing, config_source, connection, database, deferred-Closes, dialled, if-Ends,
  of_result-Ends, opening, opening-Ends, opening_always, or_clean_up-Ends, passing, passing-Ends,
  recording, recording_kratos, test_channel,
}
use run_all_resource.Prelude.{String, ◌≡◌, refl, Option, some, List, [], ◌∷◌, str_eq}
use run_all_resource.Go.{Result, ok, err, M, pure, attempt, ignore, of_result, ◌>>=◌, ◌>>◌}
use run_all_resource.Data.Clients.{
  DataConf, Libraries, text_of, source_of, url_of, rabbitmq_of, kubernetes_of, kubeconfig_path,
  close_data, new_data, new_k8s_client, close_rabbitmq, after_dial, new_rabbitmq,
}
use run_all_resource.Startup.{
  App, or_clean_up, assembled, load_conf, run_with, wire_app, Kratos, main,
}

module _ {W : Type 0} where
  module _ (lib : Libraries W) (has_pool : (w : W) → (lib.sql_db w).0 ≡ ok tt) where
    close_data-Closes : (hs : List Handle) → Closes (database ∷ hs) (close_data (recording lib)) hs
    unfolding close_data
    close_data-Closes hs w = go (lib.sql_db w) (has_pool w)
      where
        go :
            (p : Result (Unit {0}) × W)
            → p.0 ≡ ok tt
            → (ignore
                (passing (λ (v : W). p) >> closing database lib.close_database)
                (w, some (database ∷ hs))).1.1
              ≡ some hs
        go (ok _, v) h = refl
        go (err e, v) h = cc

    new_data-Ends :
        (c : Option DataConf) (hs : List Handle)
        → Ends hs (new_data (recording lib) c) hs (CleansUp hs)
    unfolding new_data
    new_data-Ends c hs =
        let source = text_of (source_of c) in
        if-Ends hs hs (CleansUp hs) (str_eq source "") _ _ (λ w. refl)
          (bind-Ends hs hs (Exactly (database ∷ hs)) (CleansUp hs)
            (opening database (lib.open_database source)) (λ _. pure (close_data (recording lib)))
            (opening-Ends database hs (lib.open_database source))
            (λ _ now e w. (now, refl, rw e (close_data-Closes hs))))

    new_k8s_client-Ends :
        (c : Option DataConf) (hs : List Handle)
        → Ends hs (new_k8s_client (recording lib) c) hs (Exactly hs)
    unfolding new_k8s_client
    new_k8s_client-Ends c hs =
        let path = of_result (kubeconfig_path lib.getenv lib.join_path (kubernetes_of c)) in
        let build : String → M (W × Open) (Unit {0}) = λ p. passing (lib.build_config p) in
        bind-Ends hs hs (Exactly hs) (Exactly hs) (path >>= build) (λ _. passing lib.new_for_config)
          (bind-Ends hs hs (Exactly hs) (Exactly hs) path build (of_result-Ends hs _)
            (λ p now e. rw e (passing-Ends hs (lib.build_config p))))
          (λ _ now e. rw e (passing-Ends hs lib.new_for_config))

    after_dial-Ends :
        (r : Result (Unit {0})) (hs : List Handle)
        → Ends (dialled r hs) (after_dial (recording lib) r) hs (CleansBeside hs)
    unfolding after_dial close_rabbitmq
    after_dial-Ends (err e) hs w = (hs, refl, (λ v. refl))
    after_dial-Ends (ok _) hs w = go (lib.open_test_channel w)
      where
        go :
            (p : Result (Unit {0}) × W)
            → Left hs (CleansBeside hs) (
                after_dial
                  (record (recording lib) {
                    open_test_channel = opening test_channel (λ (v : W). p);
                  })
                  (ok tt)
                  (w, some (connection ∷ hs)))
        go (ok _, v) = (connection ∷ hs, refl, (λ u. refl))
        go (err e, v) = (hs, refl, (λ u. refl))

    new_rabbitmq-Ends :
        (c : Option DataConf) (hs : List Handle)
        → Ends hs (new_rabbitmq (recording lib) c) hs (CleansBeside hs)
    unfolding new_rabbitmq
    new_rabbitmq-Ends c hs =
        let url = url_of (rabbitmq_of c) in
        if-Ends hs hs (CleansBeside hs) (str_eq url "") _ _ (λ w. (hs, refl, (λ v. refl)))
          (λ w. go (lib.dial url w))
      where
        go :
            (p : Result (Unit {0}) × W)
            → Left hs (CleansBeside hs) (
                (attempt (opening connection (λ (v : W). p)) >>= after_dial (recording lib))
                  (p.1, some hs))
        go (ok _, v) = after_dial-Ends (ok tt) hs v
        go (err e, v) = after_dial-Ends (err e) hs v

    wire_app-Ends :
        (c : Option DataConf) (hs : List Handle)
        → Ends hs (wire_app (recording lib) c) hs (CleansBeside hs)
    unfolding wire_app
    wire_app-Ends c hs =
        bind-Ends hs hs (CleansUp hs) (CleansBeside hs) (new_data (recording lib) c)
          (λ cleanup.
            or_clean_up cleanup (new_k8s_client (recording lib) c)
            >> or_clean_up cleanup (new_rabbitmq (recording lib) c)
            >>= assembled c cleanup)
          (new_data-Ends c hs)
          (λ cleanup now cleans.
            let k8s = or_clean_up cleanup (new_k8s_client (recording lib) c) in
            let mq = or_clean_up cleanup (new_rabbitmq (recording lib) c) in
            bind-Ends now hs (CleansBeside now) (CleansBeside hs) (k8s >> mq) (assembled c cleanup)
              (bind-Ends now hs (Exactly now) (CleansBeside now) k8s (λ _. mq)
                (or_clean_up-Ends now hs (Exactly now) cleanup cleans
                  (new_k8s_client (recording lib) c) (new_k8s_client-Ends c now))
                (λ _ later e. rw e (
                  or_clean_up-Ends now hs (CleansBeside now) cleanup cleans
                    (new_rabbitmq (recording lib) c) (new_rabbitmq-Ends c now))))
              (λ (connected, cleanup2) later closes w.
                (later, refl, after-Closes later now hs cleanup2 cleanup closes cleans)))

    module _ (kratos : Kratos W) where
      load-Ends :
          (path : String) (hs : List Handle)
          → Ends hs
              ((recording_kratos kratos).load path)
              (config_source ∷ hs)
              (Exactly (config_source ∷ hs))
      load-Ends path hs w = go (kratos.load path w)
        where
          go :
              (p : Result (Unit {0}) × W)
              → Left
                  (config_source ∷ hs)
                  (Exactly (config_source ∷ hs))
                  (opening_always config_source (λ (v : W). p) (w, some hs))
          go (ok _, v) = (config_source ∷ hs, refl, refl)
          go (err e, v) = refl

      run-Closes : (app : App) (hs : List Handle) → Closes hs ((recording_kratos kratos).run app) hs
      run-Closes app hs w = refl

      -- Where the handle on the database has its pool, the program closes what it opened, the last opened
      -- first, however the calls of the libraries turn out: after main has returned or panicked on an error, the
      -- configuration source, the database, the connection to RabbitMQ and its test channel
      -- are closed as far as they were opened.
      pub main-closes_all :
          (path : String) (w : W)
          → (main (recording_kratos kratos) (recording lib) path (w, some [])).1.1 ≡ some []
      unfolding main
      main-closes_all path w =
          let opened : List Handle = config_source ∷ [] in
          let k = recording_kratos kratos in
          let l = recording lib in
          deferred-Closes [] opened [] k.close (load_conf k path >>= wire_app l >>= run_with k)
            (λ v. refl)
            (bind-Closes [] opened (CleansBeside opened) (load_conf k path >>= wire_app l)
              (run_with k)
              (bind-Ends [] opened (Exactly opened) (CleansBeside opened) (load_conf k path)
                (wire_app l)
                (bind-Ends [] opened (Exactly opened) (Exactly opened) (k.load path) (λ _. k.scan)
                  (load-Ends path []) (λ _ now e. rw e (passing-Ends opened kratos.scan)))
                (λ c now e. rw e (wire_app-Ends c opened)))
              (λ (app, cleanup) now cleans.
                deferred-Closes now now opened cleanup (k.run app) cleans (run-Closes app now)))
            w
