-- ===== src/Api/Stream/ResourceManager/Life.antt =====
-- The life of a job's resource stream.
use rstudio_launcher_plugin.Base.{
  ◌≡◌, refl, ◌∙◌, inl, inr, true, false, none, some, [], ◌∷◌, ◌++◌, String, string_key, ◌==◌, find,
  find-insert_self, find-erase, find-erase_self, Option-cases,
}
use rstudio_launcher_plugin.Api.Job.{Job, running, state_eq, state_eq_iff, is_completed}
use rstudio_launcher_plugin.Api.Messages.{StreamRequest}
use rstudio_launcher_plugin.Jobs.Repository.{Repository, Heap, JobPtr, get_job}
use rstudio_launcher_plugin.Api.Stream.Resource.{set_stream_complete}
use rstudio_launcher_plugin.Api.Stream.ResourceManager.{
  ResourceSource, ActiveStream, ResourceManager, forget_stream, finish_stream, open_resource_stream,
  handle_resource_request, on_watched_update,
}

not_ended : (j : Job) → state_eq j.status running ≡ true → is_completed j ≡ false
unfolding is_completed
not_ended j s = rw ((state_eq_iff j.status running).0 s) refl

module _ {D S : Type 0} (source : ResourceSource S) where
  -- An update that says that a job has ended takes the job's stream away, after its requests were
  -- told of the end; streams of other jobs stay, and the job source is not called.
  pub on_watched_update_ended :
      (j : Job) (a : ActiveStream D) (m : ResourceManager D S)
      → is_completed j ≡ true
      → find j.id m.active_streams ≡ some a
      → let m' = on_watched_update source j m in
        (find j.id m'.active_streams ≡ none)
        × ((id : String)
            → (j.id == id) ≡ false
            → find id m'.active_streams ≡ find id m.active_streams)
        × (m'.closed ≡ m.closed ++ set_stream_complete a.stream ∷ [])
        × (m'.source ≡ m.source)
  unfolding on_watched_update finish_stream forget_stream
  on_watched_update_ended j a m e f =
      rw (on_watched_update, f, e)
        (
          find-erase_self j.id m.active_streams,
          (λ id o. find-erase j.id id m.active_streams ∙ rw o refl),
          refl,
          refl,
        )

  started_again :
      (j : Job) (a : ActiveStream D) (m : ResourceManager D S)
      → find j.id m.active_streams ≡ some a
      → is_completed j ≡ false
      → state_eq j.status running ≡ true
      → a.is_initialized ≡ false
      → (on_watched_update source j m).source ≡ (source.initialize j.id m.source).1
  unfolding on_watched_update finish_stream forget_stream
  started_again j a m f e s i = elim (Option-cases (source.initialize j.id m.source).0) [
    | inl g ↦ rw (on_watched_update, f, e, s, i, g) refl
    | inr (x, g) ↦ rw (on_watched_update, f, e, s, i, g) refl
  ]

  -- A request for a running job that has no stream, and for which the job source makes one,
  -- initializes the stream; the next update of the job, if it still runs, initializes it again.
  pub initialized_twice :
      (h : Heap) (r : Repository) (q : StreamRequest) (p : JobPtr) (m : ResourceManager D S)
      → get_job h r q.job_id q.user ≡ some p
      → find q.job_id m.active_streams ≡ none
      → (source.create_resource_stream p m.source).0 ≡ none
      → q.is_cancel ≡ false
      → state_eq (h p).status running ≡ true
      → (h p).id ≡ q.job_id
      → let created = (source.create_resource_stream p m.source).1 in
        let once = (source.initialize q.job_id created).1 in
        let m' = handle_resource_request source h r q m in
        (m'.source ≡ once)
        × ((on_watched_update source (h p) m').source ≡ (source.initialize q.job_id once).1)
  unfolding handle_resource_request on_watched_update open_resource_stream finish_stream
      forget_stream
  initialized_twice h r q p m e f c n s i =
      let m' = handle_resource_request source h r q m in
      let first = opened in
      (
        first.0,
        started_again (h p) first.1 m' first.2 (not_ended (h p) s) s first.3 ∙ rw (i, first.0) refl,
      )
    where
      opened :
          (let m' = handle_resource_request source h r q m in
            (m'.source
              ≡ (source.initialize q.job_id (source.create_resource_stream p m.source).1).1)
            × (a : ActiveStream D) × (find (h p).id m'.active_streams ≡ some a)
            × (a.is_initialized ≡ false))
      opened =
          rw (handle_resource_request, e, f, c, open_resource_stream, n, s, i)
            (refl, _, find-insert_self q.job_id _ m.active_streams, refl)
