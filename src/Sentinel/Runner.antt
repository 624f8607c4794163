-- ===== src/Sentinel/Runner.antt =====
-- `DetectionPipeline.run_forever` of cat-sentinel/app/detections/pipeline.py over `FrameSource.frames` of
-- cat-sentinel/app/streaming/frame_source.py. A connection is what its stream client yields and whether it
-- ends with an exception. The stop flag is set by another task: `checks` is how many of the loop's looks at
-- it find it clear, so it is a bound on the rounds, and a run without a stop is one with enough checks.
pub mod Frames
pub mod Alarms
pub mod Keys
mod Tests
use cat_sentinel.Prelude.{
  ℕ, zero, suc, ◌+◌, Bool, true, false, List, [], ◌∷◌, Option, none, some, if◌then◌else◌,
}
use cat_sentinel.Prelude.Floats.{Floats}
use cat_sentinel.Sentinel.Mjpeg.{Bytes}
use cat_sentinel.Sentinel.Tracker.{SetOrder}
use cat_sentinel.Sentinel.Pipeline.{Pipeline, World, process_frame}

-- What `FrameSource.frames` reads: `decode` is `cv2.imdecode`, whose None is skipped.
module _ {Image : Type 0} (decode : Bytes → Option Image) where
  unfoldable pub decoded_frames : List Bytes → List Image
  decoded_frames [] = []
  decoded_frames (raw_jpeg ∷ rest) = elim (decode raw_jpeg) [
    | none ↦ decoded_frames rest
    | some frame ↦ frame ∷ decoded_frames rest
  ]

-- One pass of `async for frame in self.frame_source.frames()`.
pub record Connection : Type 0 where
  pub raw_jpegs : List Bytes
  -- the stream ends with an exception, and not because the upstream closed it
  pub fails : Bool

module _ (F : Floats) where
  -- The state of the loop: how many more looks find the flag clear, how often it has slept, and how many
  -- frames it has processed; the n-th frame meets the surroundings `meets n`.
  pub record Loop : Type 0 where
    pub checks : ℕ
    pub processed : ℕ
    pub sleeps : ℕ
    pub pipeline : Pipeline F

  -- After a `break` nothing is raised; otherwise an exception of the stream is logged, with a sleep.
  abbrev pub after_frames : (fails : Bool) → Bool × Loop → Loop
  after_frames fails (true, l) = l
  after_frames true (false, l) = record l { sleeps = suc l.sleeps }
  after_frames false (false, l) = l

module _ (F : Floats) (S : SetOrder) {Image : Type 0} (decode : Bytes → Option Image)
    (meets : (n : ℕ) → Image → World F) where
  -- The loop over the frames of a connection: whether it ended by its `break`, and the state.
  unfoldable pub over_frames : List Image → Loop F → Bool × Loop F
  over_frames [] l = (false, l)
  over_frames (frame ∷ frames) l = elim l.checks [
    | zero ↦ (true, l)
    | suc checks ↦ over_frames frames (record l {
      checks = checks;
      processed = suc l.processed;
      pipeline = process_frame F (meets l.processed frame) S l.pipeline;
    })
  ]

  -- `while not self._stop_event.is_set()`, over the connections that the upstream grants.
  unfoldable pub run_forever : List Connection → Loop F → Loop F
  unfolding over_frames decoded_frames
  run_forever [] l = l
  run_forever (c ∷ cs) l = elim l.checks [
    | zero ↦ l
    | suc checks ↦ run_forever cs (
        after_frames F c.fails
          (over_frames (decoded_frames decode c.raw_jpegs) (record l { checks = checks })))
  ]
