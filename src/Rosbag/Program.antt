-- ===== src/Rosbag/Program.antt =====
-- `main` of rosbag2rawlog.cpp, from the configuration, the messages of the bag and the state of the
-- output file to what is written and the exit code. Progress and messages are left out.
pub mod Prefix
use Prim.Native.String.{String}
use mrpt_navigation.Base.{
  ℕ, Bool, true, false, not, ◌&&◌, ◌||◌, List, [], ◌∷◌, ◌++◌, Result, ok, err, if◌then◌else◌,
}
use mrpt_navigation.Rosbag.Library.{Bag}
use mrpt_navigation.Rosbag.Convert.{Obs}
use mrpt_navigation.Rosbag.Transcriber.{Transcriber, to_mrpt, new_transcriber}

module _ (bag : Bag) (base_link : String) where
  open bag use {Node, Msg}

  -- What has been written, the transcriber, and whether an exception has left the loop.
  pub record Run : Type 0 where
    pub written : Obs bag base_link
    pub transcriber : Transcriber bag base_link
    pub outcome : Result (Unit {0})

  -- `while (reader.has_next())`
  pub transcribe : List Msg → Transcriber bag base_link → Run
  unfolding to_mrpt
  transcribe [] t = record { written = []; transcriber = t; outcome = ok tt }
  transcribe (m ∷ ms) t = elim (to_mrpt bag base_link m t) [
    | err e ↦ record { written = []; transcriber = t; outcome = err e }
    | ok (t', obs) ↦ let rest = transcribe ms t' in record rest { written = obs ++ rest.written }
  ]

  exit_code : Result (Unit {0}) → ℕ
  exit_code (ok _) = 0
  exit_code (err e) = 1

  -- The observations written, and the exit code. A file that is there is not touched without `-w`.
  pub run_main : Bool → Bool → Bool → Node → List Msg → Obs bag base_link × ℕ
  unfolding transcribe exit_code new_transcriber
  run_main exists overwrite opens config ms =
      if (exists && not overwrite) || not opens
      then ([], 1)
      else elim (new_transcriber bag base_link config) [
        | err e ↦ ([], 1)
        | ok t ↦ let r = transcribe ms t in (r.written, exit_code r.outcome)
      ]
