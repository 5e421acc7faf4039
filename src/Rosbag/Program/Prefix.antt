-- ===== src/Rosbag/Program/Prefix.antt =====
-- What rosbag2rawlog writes of a bag, part by part.
use Prim.Native.String.{String}
use mrpt_navigation.Base.{
  List, [], ◌∷◌, ◌++◌, Result, ok, err, ◌≡◌, refl, sym, ap, ◌∙◌, append_assoc, Result-cases, inl,
  inr,
}
use mrpt_navigation.Rosbag.Library.{Bag}
use mrpt_navigation.Rosbag.Convert.{Obs}
use mrpt_navigation.Rosbag.Transcriber.{Transcriber, to_mrpt}
use mrpt_navigation.Rosbag.Program.{Run, transcribe}

module _ (bag : Bag) (base_link : String) where
  open bag use {Msg, Buffer, topic_name}

  abbrev continue_from : Result (Unit {0}) → Run bag base_link → List Msg → Run bag base_link
  continue_from (err e) r rest = r
  continue_from (ok _) r rest =
      let later = transcribe bag base_link rest r.transcriber in
      record later { written = r.written ++ later.written }

  -- The rest of a bag after a run over its beginning: nothing if an exception has left the loop.
  abbrev pub continue : Run bag base_link → List Msg → Run bag base_link
  continue r rest = continue_from r.outcome r rest

  abbrev prefixed : Obs bag base_link → Run bag base_link → Run bag base_link
  prefixed obs r = record r { written = obs ++ r.written }

  prefixed-continue_from :
      (obs : Obs bag base_link) (o : Result (Unit {0})) (r : Run bag base_link) (rest : List Msg)
      → prefixed obs (continue_from o r rest) ≡ continue_from o (prefixed obs r) rest
  prefixed-continue_from obs (err e) r rest = refl
  prefixed-continue_from obs (ok _) r rest =
      let later = transcribe bag base_link rest r.transcriber in
      ap (λ (w : Obs bag base_link). record later { written = w })
        (sym (append_assoc obs r.written later.written))

  -- A bag is written as its beginning is, then as its rest is from there; where the beginning
  -- throws, what was written before stays, and nothing of the rest is written.
  pub transcribe-append :
      (ms rest : List Msg) (t : Transcriber bag base_link)
      → transcribe bag base_link (ms ++ rest) t ≡ continue (transcribe bag base_link ms t) rest
  unfolding transcribe
  transcribe-append [] rest t = refl
  transcribe-append (m ∷ ms) rest t = elim (Result-cases (to_mrpt bag base_link m t)) [
    | inr (e, thrown) ↦ rw (thrown, transcribe) refl
    | inl ((t', obs), done) ↦
        let r = transcribe bag base_link ms t' in
        rw (done, transcribe)
          (ap (prefixed obs) (transcribe-append ms rest t')
            ∙ prefixed-continue_from obs r.outcome r rest)
  ]
