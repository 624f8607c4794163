-- ===== src/Sentinel/Lifespan.antt =====
-- `lifespan` of cat-sentinel/app/main.py, the constructor of DetectionPipeline, and the settings of
-- cat-sentinel/app/settings/config.py. The upstream's connections, the looks at the stop flag and how
-- the task ends by itself are arguments, and so is `cut`: what the frame under way, if there is one, has
-- done to the pipeline when the cancellation ends it. The broadcaster is that of Sentinel/Broadcaster.
pub mod Served
pub mod Restart
mod Tests
use cat_sentinel.Prelude.{
  ℕ, zero, String, Bool, true, false, List, [], Option, none, some, Outcome, ok, raise, ite,
  str_dec, if◌then◌else◌,
}
use cat_sentinel.Prelude.Floats.{Floats}
use cat_sentinel.Sentinel.Mjpeg.{Bytes}
use cat_sentinel.Sentinel.Tracker.{SetOrder, new_tracker}
use cat_sentinel.Sentinel.Pipeline.{Pipeline, World}
use cat_sentinel.Sentinel.Runner.{Connection, Loop, run_forever}

-- `value or default`, for a text
abbrev pub text_or : Option String → String → String
text_or none default = default
text_or (some text) default = ite (str_dec text "") default text

-- How the task stands when the application ends: it runs, or `run_forever` has returned or raised.
pub data Task (Err : Type 0) : Type 0 where
  running : Task Err
  finished : Outcome Err (Unit {0}) → Task Err

module _ (F : Floats) where
  pub record Settings : Type 0 where
    pub app_name : String
    pub app_version : String
    pub debug : Bool
    pub log_level : String
    pub database_url : String
    pub camera_stream_url : String
    pub camera_id : String
    pub alert_webhook_url : String
    pub alert_cooldown_seconds : ℕ
    pub yolo_model_path : String
    pub yolo_confidence_threshold : F.Float
    pub centroid_max_distance : F.Float
    pub centroid_max_age_frames : ℕ
    pub detection_pipeline_enabled : Bool
    pub detection_frame_interval_seconds : F.Float

  -- The defaults; the three floats are 0.5, 75.0 and 0.2.
  abbrev pub default_settings : (threshold max_distance interval : F.Float) → Settings
  default_settings threshold max_distance interval = record {
    app_name = "cat-sentinel";
    app_version = "0.1.0";
    debug = false;
    log_level = "INFO";
    database_url = "sqlite+aiosqlite:///./cat_sentinel.db";
    camera_stream_url = "http://localhost:9000/stream.mjpg";
    camera_id = "default";
    alert_webhook_url = "http://localhost:9100/webhooks/cat-sentinel";
    alert_cooldown_seconds = 60;
    yolo_model_path = "yolov8n.pt";
    yolo_confidence_threshold = threshold;
    centroid_max_distance = max_distance;
    centroid_max_age_frames = 30;
    detection_pipeline_enabled = true;
    detection_frame_interval_seconds = interval;
  }

  -- `DetectionPipeline(broadcaster, camera_id)`: the state in memory is new, that in the database is as the
  -- runs before have left it.
  unfoldable pub new_pipeline : Settings → (camera_id : Option String) → Pipeline F → Pipeline F
  unfolding new_tracker
  new_pipeline settings camera_id database = record database {
    camera_id = text_or camera_id settings.camera_id;
    tracker = new_tracker F settings.centroid_max_distance settings.centroid_max_age_frames;
    cooldown = record { cooldown_seconds = settings.alert_cooldown_seconds; last_fired = [] };
    published = 0;
  }

  -- `stop`: every further look finds the flag set.
  unfoldable pub stop : Loop F → Loop F
  stop l = record l { checks = zero }

  module _ (Err : Type 0) where
    -- `app.state` with the task; `pipeline` is none if it was not started.
    pub record App : Type 0 where
      pub pipeline : Option (Loop F)
      pub task : Option (Task Err)

    -- What stands before the application starts.
    unfoldable pub new_app : App
    new_app = record { pipeline = none; task = none }

    -- Up to `yield`. `checks` is how many looks at the flag there are before it is set.
    unfoldable pub startup : Settings → (checks : ℕ) → Pipeline F → App → App
    unfolding new_pipeline
    startup settings checks database a =
        if settings.detection_pipeline_enabled
        then record a {
          pipeline = some (record {
            checks = checks;
            processed = 0;
            sleeps = 0;
            pipeline = new_pipeline settings none database;
          });
          task = some running;
        }
        else a

    -- `await pipeline_task` behind `cancel`: a task that runs raises CancelledError, which is caught.
    abbrev pub await_cancelled : Task Err → Outcome Err (Unit {0})
    await_cancelled running = ok tt
    await_cancelled (finished o) = o

    -- `cancel` ends a task that runs, in the middle of a frame or between two.
    abbrev pub cancelled : (cut : Pipeline F → Pipeline F) → Task Err → Loop F → Loop F
    cancelled cut running l = record l { pipeline = cut l.pipeline }
    cancelled cut (finished o) l = l

    abbrev pub stopped :
        (cut : Pipeline F → Pipeline F) → Task Err → Option (Loop F) → Option (Loop F)
    stopped cut t none = none
    stopped cut t (some l) = some (cancelled cut t (stop l))

    -- Behind `yield`.
    unfoldable pub after_yield :
        (cut : Pipeline F → Pipeline F) → Option (Task Err) → App → Outcome Err (Unit {0}) × App
    unfolding stop
    after_yield cut none a = (ok tt, a)
    after_yield cut (some t) a = (
      await_cancelled t,
      record a { pipeline = stopped cut t a.pipeline; task = some (finished (await_cancelled t)) },
    )

    unfoldable pub shutdown : (cut : Pipeline F → Pipeline F) → App → Outcome Err (Unit {0}) × App
    unfolding after_yield
    shutdown cut a = after_yield cut a.task a

    module _ (S : SetOrder) {Image : Type 0} (decode : Bytes → Option Image)
        (meets : (n : ℕ) → Image → World F) where
      abbrev pub looped : List Connection → Option (Loop F) → Option (Loop F)
      looped cs none = none
      looped cs (some l) = some (run_forever F S decode meets cs l)

      abbrev pub turned : Task Err → Option (Task Err) → Option (Task Err)
      turned t none = none
      turned t (some _) = some t

      -- While the application serves, the task goes through these connections, and then stands so.
      unfoldable pub serving : List Connection → Task Err → App → App
      serving cs t a = record a { pipeline = looped cs a.pipeline; task = turned t a.task }

      -- The whole context manager.
      unfoldable pub lifespan :
          Settings
          → (checks : ℕ) → List Connection
          → Task Err
          → (cut : Pipeline F → Pipeline F) → (database : Pipeline F) → Outcome Err (Unit {0}) × App
      unfolding new_app startup serving shutdown
      lifespan settings checks cs t cut database =
          shutdown cut (serving cs t (startup settings checks database new_app))
