-- ===== src/Examples/Data.antt =====
-- A drill of a PostgreSQL dump and one of a Velero backup, as the documents say, with a world in
-- which both are verified.
use fire_drill.Base.{ℕ, pos, true, false, List, [], ◌∷◌, none, some, ok, err}
use fire_drill.Spec.Document.{Drill, Sink, From}
use fire_drill.Spec.Checks.Valid.{Kind, restore_succeeded, row_count, canary, pods_ready, only}
use fire_drill.Verify.Types.{Pod, Sample, Cluster, listed, running, succeeded}
use fire_drill.Verify.Engine.{Database}
use fire_drill.Source.Backup.{Backup}
use fire_drill.Drill.World.{World, Options, Driver, sql_capable, VeleroDrill}

abbrev pub second : ℕ
second = 1000000000

abbrev pub min_rows : Kind
min_rows = row_count (record { query = "SELECT count(*) FROM payments"; min = pos 10 })

abbrev pub sentinel : Kind
sentinel = canary (record { sql = "SELECT marker FROM drill"; query = ""; expect = "intact" })

abbrev pub slack : Sink
slack = record {
  type = "slack";
  textfile_dir = "";
  url = "";
  webhook_env = "SLACK_WEBHOOK";
  url_env = "";
  only_failures = true;
}

abbrev pub no_source : From
no_source = record {
  type = "file";
  uri = "";
  credentials_ref = "";
  region = "";
  endpoint = "";
  max_bytes = pos 0;
  max_uncompressed_bytes = pos 0;
  decrypt = none;
  select = "";
  match = "";
  backup = "";
  namespace = "";
}

abbrev pub payments : Drill
payments = record {
  api_version = "firedrill.dev/v1";
  kind = "RecoveryDrill";
  metadata = record { name = "payments" };
  spec = record {
    schedule = "";
    objectives = record { rto = pos 900000000000; rpo = pos 86400000000000 };
    source = record {
      driver = "postgres";
      source_from = record no_source {
        uri = "backups/payments.dump";
        select = "latest";
        match = "*.dump";
      };
      format = "dump";
      database = "";
    };
    sandbox = record {
      provider = "docker";
      image = "postgres:16";
      ttl = pos 1800000000000;
      namespace = "";
    };
    verify = only restore_succeeded ∷ only min_rows ∷ only sentinel ∷ [];
    report = record {
      sign = true;
      html = false;
      controls = "SOC2-A1.3" ∷ [];
      dir = "";
      sinks = slack ∷ [];
    };
  };
}

-- The same drill, every hour.
abbrev pub repeated : Drill
repeated = record payments { spec = record payments.spec { schedule = "@every 1h" } }

abbrev pub cluster_pods : Kind
cluster_pods = pods_ready (record { timeout = pos 60000000000 })

abbrev pub web : Drill
web = record payments {
  metadata = record { name = "web" };
  spec = record payments.spec {
    source = record {
      driver = "velero";
      source_from = record no_source { type = "velero"; backup = "nightly"; namespace = "web" };
      format = "";
      database = "";
    };
    sandbox = record {
      provider = "kubernetes";
      image = "";
      ttl = pos 1800000000000;
      namespace = "";
    };
    verify = only cluster_pods ∷ [];
  };
}

abbrev pub ready_pod : Pod
ready_pod = record {
  phase = running;
  conditions =
      record { is_ready_type = false; is_true = false }
      ∷ record { is_ready_type = true; is_true = true }
      ∷ [];
}

abbrev pub starting_pod : Pod
starting_pod = record { phase = running; conditions = [] }

abbrev pub completed_pod : Pod
completed_pod = record { phase = succeeded; conditions = [] }

abbrev pub rounds : List Sample
rounds =
    listed (starting_pod ∷ [])
    ∷ listed (ready_pod ∷ [])
    ∷ listed (ready_pod ∷ completed_pod ∷ [])
    ∷ listed (ready_pod ∷ [])
    ∷ []

abbrev pub cluster : Cluster
cluster = record { samples = λ _ _. rounds; count = λ _ _. ok 3 }

abbrev pub database : Database
database = record {
  query_int = λ _. ok (pos 12);
  query_text = λ _. ok "intact";
  query_rows = λ _. ok (2, none);
}

abbrev pub postgres : Driver
postgres = record {
  name = "postgres";
  verify_path = sql_capable (record {
    dsn = "postgres://sandbox";
    open_db = λ _. ok database;
    dialect = λ table column. table;
  });
  restore = λ _ _. record {
    result = some (record { duration = pos 42000000000; dsn = "" });
    error = none;
  };
}

abbrev pub backup : Backup
backup = record {
  path = "/tmp/payments.dump";
  mod_time = 5000000000;
  size = pos 4096;
  resolved_uri = "backups/payments-2.dump";
  encryption = "";
  compression = "";
  uncompressed_bytes = pos 0;
  temporary = false;
}

abbrev pub velero_drill : VeleroDrill
velero_drill = record {
  target_ns = "firedrill-web";
  backup_age = pos 7000000000;
  restore = record {
    result = some (record { duration = pos 30000000000; dsn = "" });
    error = none;
  };
  cluster = cluster;
}

abbrev pub world : World
world = record {
  started_at = 9000000000;
  fetched_at = 10000000000;
  finished_at = 60000000000;
  velero_mod_time = 2000000000;
  registry = postgres ∷ [];
  fetch = λ _. ok backup;
  docker = λ _. ok tt;
  kubernetes = λ _. ok tt;
  prepare = λ _ _ _ _. ok velero_drill;
  was_destroyed = true;
  write = λ _ _. ok "evidence/payments.json";
  default_key_dir = ok "keys";
  load_key = λ dir. ok dir;
  sign = λ _ _. ok "evidence/payments.json.sig";
  attest = λ _ _. ok "evidence/payments.json.intoto";
  write_html = λ _ _. err "no template";
  slack = λ _ _. none;
  webhook = λ _ _. none;
  export = λ _ _. [];
}

abbrev pub options : Options
options = record { evidence_dir = ""; key_dir = ""; version = "1.0" }
