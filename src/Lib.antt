-- ===== src/Lib.antt =====
-- A verification library for three services that watch cats on camera: `camera` (the bridge to the
-- camera: motor, events, webhooks, recordings), `cat-sentinel` (detection, tracking, danger zones,
-- alerts) and `hub` (the latest place of each cat). The camera serves frames; cat-sentinel reads its
-- MJPEG stream, tracks the cats that a detector finds, writes a row for each track and frame, and fires
-- an alert when a cat is in a danger zone and the cooldown has run out. The camera takes in events, maps
-- them to commands, logs them and tells its webhooks. The hub asks cat-sentinel for cats and detections.
--
-- Files and the code that they model (paths from the root of the repository):
-- * Prelude and its children: lists by native numbers, Python dicts, tables with a unique constraint,
--   exceptions, integers, and the record of float operations.
-- * Sentinel/Errors, cat-sentinel/app/core/exceptions.py: the exceptions and their HTTP status.
-- * Sentinel/Sanitize, _sanitize of the same file.
-- * Sentinel/Geometry, point_in_polygon of cat-sentinel/app/zones/service.py.
-- * Sentinel/Zones, cat-sentinel/app/zones: create, read, list, PATCH and DELETE on a table.
-- * Sentinel/Tracker, CentroidTracker of cat-sentinel/app/vision/tracker.py, statement by statement:
--   candidate_pairs, sort_pairs, match_pairs, add_tracks, age_unmatched, and update, which is all of them.
-- * Sentinel/Cats, cat-sentinel/app/cats: get_or_create with the race of two writers, and PATCH.
-- * Sentinel/Alerts, cat-sentinel/app/alerts: the cooldown tracker and AlertService.fire.
-- * Sentinel/Pipeline, _process_frame of cat-sentinel/app/detections/pipeline.py, with the rows that it
--   writes through the services above.
-- * Sentinel/Annotator, cat-sentinel/app/vision/annotator.py, and the boxes that _process_frame hands to it.
-- * Sentinel/Detector, cat-sentinel/app/vision/detector.py: the lazy load of the model, and detect.
-- * Sentinel/Runner, run_forever of cat-sentinel/app/detections/pipeline.py over the frames of
--   cat-sentinel/app/streaming/frame_source.py.
-- * Sentinel/Listing, Pagination of cat-sentinel/app/core/dependencies.py and the lists of the repositories.
-- * Sentinel/Mjpeg, RatSentinelStreamClient.frames of cat-sentinel/app/streaming/client.py and the parts
--   that both `_mjpeg_generator`s send.
-- * Sentinel/Broadcaster, cat-sentinel/app/streaming/broadcaster.py.
-- * Sentinel/Migration, the operations of the initial schema of cat-sentinel/alembic/versions; and
--   Sentinel/Migration/Environment, how cat-sentinel/alembic/env.py runs them.
-- * Sentinel/Lifespan, lifespan of cat-sentinel/app/main.py, with the constructor of DetectionPipeline and
--   cat-sentinel/app/settings/config.py.
-- * Sentinel/Context, cat-sentinel/app/settings/middleware.py and cat-sentinel/app/core/decorators.py.
-- * Camera/Errors, camera/app/core/exceptions.py.
-- * Camera/Webhooks, camera/app/webhooks/service.py.
-- * Camera/Events, camera/app/events/service.py: the command map, the log of 500 events, and ingest.
-- * Camera/Ptz, camera/app/ptz/service.py and camera/app/events/camera_command_dispatcher.py.
-- * Camera/Recordings, camera/app/recordings: the rows, reconcile, and (Passes) the loop of its passes.
-- * Camera/Bridge, camera/app/camera/service.py: the state of RTSPCamera and its recording, by steps; and
--   Camera/Bridge/Thread, its _run.
-- * Camera/Viewer, _mjpeg_generator of camera/app/camera/router.py, up to the reader of Sentinel/Mjpeg.
-- * Camera/Recorder, the recording routes of the same file: Camera/Bridge and Camera/Recordings together.
-- * Camera/Gateway, camera/app/events/router.py, camera/app/ptz/router.py, camera/app/webhooks/router.py and
--   require_api_key: Camera/Events, Camera/Ptz and Camera/Webhooks together.
-- * Camera/Lifespan, lifespan of camera/app/main.py.
-- * Camera/Context, camera/app/settings/middleware.py and camera/app/core/decorators.py.
-- * Camera/Migration, camera/app/alembic: the table of recordings, its enum type, and env.py.
-- * Camera/Settings, camera/app/settings/config.py.
-- * Hub/Trackers, hub/app/trackers/service.py: the latest detection of each cat.
-- * Hub/Stream, hub/app/stream: the proxy of the annotated stream.
-- * Hub/Clients, hub/app/core/dependencies.py, lifespan of hub/app/main.py, hub/app/settings/config.py.
-- * Hub/Context, hub/app/settings/middleware.py and hub/app/core/decorators.py.
-- * EndToEnd, the way of a frame from Camera/Viewer over Sentinel/Mjpeg to Sentinel/Runner.
-- The children of a component's file hold its theorems, and its Tests the runs at concrete inputs.
--
-- Conventions. A call that may raise returns an Outcome, and a call that changes state before it raises
-- returns the state beside it. A database table is a dict by primary key; a commit that breaks a unique
-- constraint changes nothing. A uuid is a number that the caller gives. Floats are an argument, the record
-- Floats; what a theorem asks of them is a hypothesis (FiniteLaws, OrderLaws), which the integers fill in the tests.
-- Clocks, the HTTP client, pytapo, the disk, the detector and the order of a Python set are arguments.
-- The fuel of the stream reader's loop is the length of its buffer (each round that goes on takes four
-- bytes); that of the digits of a number is the number itself. The two endless loops
-- (Sentinel/Runner, Camera/Bridge/Thread) run over the connections that they are given, and `checks` is how
-- many of their looks at the stop flag find it clear.
--
-- Not modelled: requests of the camera service that interleave while one waits for the database, what YOLO, OpenCV and PyAV do, the offline mode of Alembic, log formats, the
-- creation of engines and sessions, how settings are read from the environment, request models beyond those
-- named, and the front end: calls of other libraries or wiring of the framework.
pub mod Prelude
pub mod Sentinel
pub mod Camera
pub mod Hub
pub mod EndToEnd
