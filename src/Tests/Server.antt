-- ===== src/Tests/Server.antt =====
-- Requests, plans and deliveries at concrete inputs.
use forgelet.Prelude.{
  ℕ, if◌then◌else◌, true, false, Option, none, some, List, [], ◌∷◌, Text, text, text_key, Map,
  lookup, insert, is, inl, ◌≡◌, refl, Text-discrete, cut_prefix, has_prefix, has_suffix, trim_space,
}
use forgelet.Run.Records.{validate, DeliveryKey-discrete}
use forgelet.Memory.State.{DurableStore}
use forgelet.Scheduler.Backend.{memory_port, memory_active}
use forgelet.Security.Identity.{
  Identity, audience, has_scope, scope_secrets_read, scope_status_write,
}
use forgelet.Security.Policy.{
  TrustLevel-discrete, Ref-discrete, trusted, Ref, authorize_execution, decide_secrets, decide_each,
  decide_one,
}
use forgelet.Executor.Plan.{Plan, JobResult}
use forgelet.Server.State.{Server, get_plan}
use forgelet.Server.Access.{
  Request, auth, scoped_job, trust_of, secret_path, secret_value, deliver, handle_secrets,
  handle_status,
}
use forgelet.Server.Secrets.{IsBearer, MayRead, handle_secrets-MayRead}
use forgelet.Server.Bound.{Guarded, handle_status-Guarded}
use forgelet.Syntax.Ast.{Workflow}
use forgelet.Syntax.Document.{parse_document, parse_workflow, parse_on, parse_push, parse_schedule}
use forgelet.Syntax.Jobs.{parse_jobs}
use forgelet.Syntax.Document.Print.{print_workflow}
use forgelet.Compiler.TopoSort.{
  topo_sort, index_jobs, unknown_needs, unknown_need, visit_all, visit, visit_needs, mark_of,
}
use forgelet.Compiler.Compile.{compile, matches_push}
use forgelet.Memory.Create.{
  record_delivery, create_run, create_new, finish_create, add_jobs, add_job,
}
use forgelet.Memory.State.{new_durable_store}
use forgelet.Memory.Invariant.History.{history, cancels}
use forgelet.Scheduler.Ingestor.{run, ingest, first_invalid}
use forgelet.Server.Ingest.{server_ingest, after_ingest, build_plans}
use forgelet.Server.Replay.{server_ingest-replay}
use forgelet.Tests.Expression.{naturals, no_json}
use forgelet.Server.Source.{
  SourceHost, load, jobs_for, compile_file, jobs_of_files, matched_jobs, source_compile,
}
use forgelet.Tests.{
  started, build_1, push, intent, delivery, empty_store, run_1, empty_store-WellFormed,
}
use forgelet.Tests.Engine.{plan}
use forgelet.Tests.Compile.{quoted, job_named, make_step}

abbrev executor : Identity
executor = record {
  audience = audience;
  namespace = text "ci";
  pod_uid = text "p";
  job_run_id = build_1;
  scopes = scope_secrets_read ∷ scope_status_write ∷ [];
  token_id = [];
  issued_at = 0;
  expires_at = 900;
}

abbrev known : Text → Option Identity
known token = if is token (text "t0k") then some executor else none

abbrev server : Server DurableStore
server = record {
  durable = started;
  plans = (build_1, plan) ∷ [];
  trust = (build_1, trusted) ∷ [];
  reported = [];
}

abbrev deploy_key : Ref
deploy_key = record { scope = text "repository"; name = text "DEPLOY_KEY" }

abbrev npm_key : Ref
npm_key = record { scope = text "repository"; name = text "NPM_KEY" }

abbrev values : Map Text Text
values =
    (text "repository/DEPLOY_KEY", text "s3cret") ∷ (text "repository/NPM_KEY", text "npm") ∷ []

abbrev secrets_request : Request (List Ref)
secrets_request = record {
  authorization = text "Bearer t0k";
  id = build_1;
  body = some (deploy_key ∷ npm_key ∷ []);
}

abbrev delivered : Map Text Text
delivered = (text "repository/DEPLOY_KEY", text "s3cret") ∷ []

secrets-delivered : handle_secrets known none values secrets_request server ≡ inl delivered
unfolding handle_secrets scoped_job auth get_plan deliver decide_secrets decide_each decide_one
    has_scope lookup insert Text-discrete TrustLevel-discrete Ref-discrete cut_prefix
    authorize_execution
secrets-delivered = refl

handle_secrets-MayRead_example :
    (ident : Identity) × (requested : List Ref) × (p : Plan) × IsBearer known scope_secrets_read
      secrets_request ident
    × (secrets_request.body ≡ some requested)
    × (get_plan build_1 server ≡ some p)
    × ((k v : Text)
        → lookup k delivered ≡ some v
        → (ref : Ref) × MayRead ident requested p (trust_of build_1 server) ref
          × (secret_path ref ≡ k)
          × (secret_value none values ref ≡ some v))
handle_secrets-MayRead_example =
    handle_secrets-MayRead known none values secrets_request server delivered secrets-delivered

abbrev succeeded : Request JobResult
succeeded = record {
  authorization = text "Bearer t0k";
  id = build_1;
  body = some (record {
    job_run_id = build_1;
    success = true;
    cancelled = false;
    steps = [];
    error = none;
  });
}

handle_status-Guarded_example :
    Guarded known [] scope_status_write succeeded server
      (handle_status known memory_port memory_active [] 9 succeeded server)
handle_status-Guarded_example = handle_status-Guarded known [] 9 succeeded server

abbrev tiny : Workflow
tiny = record {
  file = text "ci.yml";
  name = text "ci";
  on = record {
    push = some (record { branches = []; branches_ignore = [] });
    pull_request = none;
    schedule = [];
  };
  jobs = record (job_named (text "build") []) { steps = make_step ∷ [] } ∷ [];
}

-- A directory with one workflow.
abbrev directory : SourceHost
directory = record {
  fetcher = none;
  files = some (record { name = text "ci.yml"; content = [] } ∷ []);
  unmarshal = λ s. inl (print_workflow tiny);
  base_ref = λ s. s;
  quote = quoted;
  decimal = λ n. [];
  names = [];
  glob = λ pattern s. some true;
}

-- The directory cannot be read any more.
abbrev gone : SourceHost
gone = record directory { files = none }

compiled : source_compile directory push [] ≡ some (intent (text "build") [] ∷ [])
unfolding source_compile matched_jobs load jobs_of_files compile_file jobs_for has_suffix has_prefix
    cut_prefix parse_document parse_workflow compile topo_sort index_jobs unknown_needs unknown_need
    visit_all visit visit_needs mark_of lookup insert Text-discrete trim_space matches_push parse_on
    parse_push parse_schedule parse_jobs
compiled = refl

abbrev idle : Server DurableStore
idle = record server { durable = empty_store; plans = []; trust = [] }

abbrev failed_plans : Server DurableStore
failed_plans =
    (server_ingest ℕ memory_port memory_active gone (λ p. none) none [] directory delivery 1 2
      idle).0

ingested :
    (server_ingest ℕ memory_port memory_active gone
      (λ p. none)
      none
      []
      directory
      delivery
      1
      2
      idle).1
    ≡ run run_1 true
unfolding server_ingest after_ingest build_plans ingest first_invalid validate record_delivery
    create_run create_new finish_create add_jobs add_job new_durable_store DeliveryKey-discrete
    source_compile matched_jobs load jobs_of_files compile_file jobs_for has_suffix has_prefix
    cut_prefix parse_document parse_workflow compile topo_sort index_jobs unknown_needs unknown_need
    visit_all visit visit_needs mark_of lookup insert Text-discrete trim_space matches_push parse_on
    parse_push parse_schedule parse_jobs
ingested = refl

abbrev cancelled_later : Server DurableStore
cancelled_later = record failed_plans {
  durable = history failed_plans.durable (cancels run_1 4 ∷ []);
}

server_ingest-replay_example :
    server_ingest ℕ memory_port memory_active gone
      (λ p. none)
      none
      []
      directory
      delivery
      5
      6
      cancelled_later
    ≡ (cancelled_later, run run_1 false, none)
server_ingest-replay_example =
    server_ingest-replay ℕ gone (λ p. none) none [] directory directory delivery delivery 1 5 2 6
      idle cancelled_later run_1 (cancels run_1 4 ∷ []) empty_store-WellFormed ingested refl refl
