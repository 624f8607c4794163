-- ===== src/Sentinel/Detector.antt =====
-- `YoloCatDetector` and `RawDetection` of cat-sentinel/app/vision/detector.py. The library is an
-- argument: `load` is YOLO(model_path) and `predict` the call on a loaded model, each `none` if it
-- raises.
pub mod Confident
mod Tests
use cat_sentinel.Prelude.{ℕ, List, [], ◌∷◌, ◌++◌, Option, none, some}
use cat_sentinel.Prelude.Floats.{Floats}
use cat_sentinel.Sentinel.Geometry.{Point}
use cat_sentinel.Sentinel.Tracker.{BoundingBox}

module _ (F : Floats) where
  pub record RawDetection : Type 0 where
    pub bbox : BoundingBox F
    pub confidence : F.Float

  -- the property `centroid`
  unfoldable pub centroid_of : RawDetection → Point F
  centroid_of d = (F.half (F.add d.bbox.left d.bbox.right), F.half (F.add d.bbox.top d.bbox.bottom))

  -- One of the `boxes` of a result: `box.xyxy[0].tolist()` and `float(box.conf[0])`.
  pub record Box : Type 0 where
    pub xyxy : BoundingBox F
    pub conf : F.Float

  -- `getattr(result, "boxes", None)` of each result
  abbrev pub Results : Type 0
  Results = List (Option (List Box))

  -- `for box in boxes`
  abbrev pub append_boxes : List RawDetection → List Box → List RawDetection
  append_boxes detections [] = detections
  append_boxes detections (box ∷ boxes) =
      append_boxes (detections ++ record { bbox = box.xyxy; confidence = box.conf } ∷ []) boxes

  -- `for result in results`
  unfoldable pub append_results : List RawDetection → Results → List RawDetection
  append_results detections [] = detections
  append_results detections (none ∷ results) = append_results detections results
  append_results detections (some boxes ∷ results) =
      append_results (append_boxes detections boxes) results

  pub record YoloCatDetector (Model : Type 0) : Type 0 where
    pub confidence_threshold : F.Float
    pub model : Option Model

  module _ {Model Image : Type 0} (load : Option Model)
      (predict : (conf : F.Float) → Model → Image → Option Results) where
    -- `_get_model`
    unfoldable pub get_model : YoloCatDetector Model → Option Model × YoloCatDetector Model
    get_model d = elim d.model [
      | some m ↦ (some m, d)
      | none ↦ elim load [ none ↦ (none, d) | some m ↦ (some m, record d { model = some m }) ]
    ]

    -- `detect`; `none` is an exception of the library.
    unfoldable pub detect :
        Image → YoloCatDetector Model → Option (List RawDetection) × YoloCatDetector Model
    unfolding get_model append_results
    detect frame d =
        let (model, d') = get_model d in
        elim model [
          | none ↦ (none, d')
          | some m ↦ elim (predict d.confidence_threshold m frame) [
            | none ↦ (none, d')
            | some results ↦ (some (append_results [] results), d')
          ]
        ]

    -- `detect` on frame after frame.
    unfoldable pub detect_all :
        List Image
        → YoloCatDetector Model
        → List (Option (List RawDetection)) × YoloCatDetector Model
    unfolding detect
    detect_all [] d = ([], d)
    detect_all (frame ∷ frames) d =
        let (answer, d') = detect frame d in
        let (answers, d'') = detect_all frames d' in (answer ∷ answers, d'')
