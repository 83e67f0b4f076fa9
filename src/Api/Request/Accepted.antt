-- ===== src/Api/Request/Accepted.antt =====
-- What an accepted request owes to its message: its user, its ID, its type and its operation.
use rstudio_launcher_plugin.Base.{
  ℕ, ℤ, ◌≡◌, refl, sym, ap, subst, ◌∙◌, ◌⊎◌, inl, inr, Bool, Bool-cases, Option-cases, Sum-cases,
  true, false, Option, some, String, string_key, ◌==◌, arith,
}
use rstudio_launcher_plugin.Json.{Object}
use rstudio_launcher_plugin.Json.Read.{read, read_optional, as_string, as_int}
use rstudio_launcher_plugin.Api.User.{User, new_user}
use rstudio_launcher_plugin.Api.Platform.{Platform}
use rstudio_launcher_plugin.Api.Request.{
  success, RequestType, heartbeat, bootstrap, submit_job, get_job, get_job_status, control_job,
  get_job_output, get_job_resource_util, get_job_network, get_cluster_info, Request, Body, fail,
  enumerator, request_types,
}
use rstudio_launcher_plugin.Api.Request.Base.{
  new_request, resolve_user, new_user_request, new_job_id_request,
}
use rstudio_launcher_plugin.Api.Request.FromJson.{construct, accept, from_json}
use rstudio_launcher_plugin.Api.Request.Kept.{
  Keeps, bootstrap-Keeps, control-Keeps, job_state-Keeps, job_status-Keeps, network-Keeps,
  new_job_id_request-type, new_job_id_request_user, new_request-type, new_user_request-type,
  output-Keeps, resource-Keeps, submit-Keeps,
}

-- Who may be the user of a request: all users if the message names "*", or else whom the system has
-- under the name in the message.
pub Grants : Platform → Object → User → Type 0
Grants p o u =
    (name : String) × (read as_string "username" o ≡ inr name)
    × (((p.texts.trim_copy name == "*") ≡ true) × (u ≡ new_user false)
        ⊎ ((p.texts.trim_copy name == "*") ≡ false)
          × (p.get_user (p.texts.trim_copy name) ≡ some u))

-- Which requests have a user.
abbrev pub has_user : RequestType → Bool
has_user heartbeat = false
has_user bootstrap = false
has_user _ = true

module _ (p : Platform) where
  new_request-user :
      (type : RequestType) (o : Object) → (new_request p type o).user ≡ new_user false
  unfolding new_request fail
  new_request-user type o = ground arith

  resolve_user-Grants :
      (o : Object) (name : String) (request_username : Option String) (r : Request)
      → r.user ≡ new_user false
      → read as_string "username" o ≡ inr name
      → (resolve_user p name request_username r).error_type ≡ success
      → Grants p o (resolve_user p name request_username r).user
  unfolding resolve_user Grants
  resolve_user-Grants o name q r u e h = elim (Bool-cases (p.texts.trim_copy name == "*")) [
    | inl star ↦ (name, e, inl (star, ground (arith, u)))
    | inr named ↦ elim (Option-cases (p.get_user (p.texts.trim_copy name))) [
      | inl missing ↦ absurd (ground arith)
      | inr (v, found) ↦ (name, e, inr (named, ground arith))
    ]
  ]

  new_user_request-Grants :
      (type : RequestType) (o : Object)
      → (new_user_request p type o).error_type ≡ success
      → Grants p o (new_user_request p type o).user
  unfolding new_user_request fail
  new_user_request-Grants type o h = elim (Sum-cases (read as_string "username" o)) [
    | inl (e, q) ↦ absurd (ground arith)
    | inr (name, q) ↦ elim (Sum-cases (read_optional as_string "requestUsername" o)) [
      | inl (e, q') ↦ absurd (ground arith)
      | inr (other, q') ↦
          let same : new_user_request p type o ≡ resolve_user p name other (new_request p type o) =
            rw (new_user_request, q, q') refl in
          subst (λ r. Grants p o r.user) (sym same)
            (resolve_user-Grants o name other (new_request p type o) (new_request-user type o) q
              (sym (ap (λ r. r.error_type) same) ∙ h))
    ]
  ]

  through_job_id :
      (c : Request × Body) (type : RequestType) (o : Object)
      → Keeps p c (new_job_id_request p type o)
      → c.0.error_type ≡ success
      → Grants p o c.0.user
  unfolding Keeps
  through_job_id c type o k h =
      let (base, same, job, type', id) = k h in
      let (user_base, user_same) = new_job_id_request_user p type o base in
      subst (λ u. Grants p o u) (sym (same ∙ user_same)) (new_user_request-Grants type o user_base)

  construct-Grants :
      (t : ℕ) (type : RequestType) (o : Object)
      → has_user type ≡ true
      → (construct p t type o).0.error_type ≡ success
      → Grants p o (construct p t type o).0.user
  unfolding construct Keeps
  construct-Grants t heartbeat o u h = absurd (ground arith)
  construct-Grants t bootstrap o u h = absurd (ground arith)
  construct-Grants t submit_job o u h =
      let (base, same, job, type', id) = submit-Keeps p t o h in
      subst (λ x. Grants p o x) (sym same) (new_user_request-Grants submit_job o base)
  construct-Grants t get_job o u h =
      through_job_id (construct p t get_job o) get_job o (job_state-Keeps p o) h
  construct-Grants t get_job_status o u h =
      through_job_id (construct p t get_job_status o) get_job_status o (job_status-Keeps p o) h
  construct-Grants t control_job o u h =
      through_job_id (construct p t control_job o) control_job o (control-Keeps p o) h
  construct-Grants t get_job_output o u h =
      through_job_id (construct p t get_job_output o) get_job_output o (output-Keeps p o) h
  construct-Grants t get_job_resource_util o u h =
      through_job_id (construct p t get_job_resource_util o) get_job_resource_util o
        (resource-Keeps p o) h
  construct-Grants t get_job_network o u h =
      through_job_id (construct p t get_job_network o) get_job_network o (network-Keeps p o) h
  construct-Grants t get_cluster_info o u h = new_user_request-Grants get_cluster_info o h

  accept-success :
      (o : Object) (c : Request × Body) {a : Request × Body}
      → accept p o c ≡ inr a
      → (c ≡ a) × (c.0.error_type ≡ success)
  unfolding accept
  accept-success o c h = (ground arith, ground arith)

  pub construct-type :
      (t : ℕ) (type : RequestType) (o : Object)
      → (construct p t type o).0.error_type ≡ success
      → (construct p t type o).0.type ≡ type
  unfolding construct Keeps
  construct-type t heartbeat o h = new_request-type p heartbeat o
  construct-type t bootstrap o h = (bootstrap-Keeps p o h).3 ∙ new_request-type p bootstrap o
  construct-type t submit_job o h = (submit-Keeps p t o h).3 ∙ new_user_request-type p submit_job o
  construct-type t get_job o h = (job_state-Keeps p o h).3 ∙ new_job_id_request-type p get_job o
  construct-type t get_job_status o h =
      (job_status-Keeps p o h).3 ∙ new_job_id_request-type p get_job_status o
  construct-type t control_job o h =
      (control-Keeps p o h).3 ∙ new_job_id_request-type p control_job o
  construct-type t get_job_output o h =
      (output-Keeps p o h).3 ∙ new_job_id_request-type p get_job_output o
  construct-type t get_job_resource_util o h =
      (resource-Keeps p o h).3 ∙ new_job_id_request-type p get_job_resource_util o
  construct-type t get_job_network o h =
      (network-Keeps p o h).3 ∙ new_job_id_request-type p get_job_network o
  construct-type t get_cluster_info o h = new_user_request-type p get_cluster_info o

  -- What was accepted was constructed without an error, from the number of its type.
  pub from_json-construct :
      (t : ℕ) (o : Object) {r : Request} {b : Body}
      → from_json p t o ≡ inr (r, b)
      → (i : ℤ) × (type : RequestType) × (read (as_int p.rapid) "messageType" o ≡ inr i)
        × (enumerator request_types i ≡ some type)
        × (construct p t type o ≡ (r, b))
        × ((construct p t type o).0.error_type ≡ success)
  unfolding from_json accept
  from_json-construct t o h = elim (Sum-cases (read (as_int p.rapid) "messageType" o)) [
    | inl (e, q) ↦ absurd (ground arith)
    | inr (i, q) ↦ elim (Option-cases (enumerator request_types i)) [
      | inl none_q ↦ absurd (ground arith)
      | inr (type, q') ↦
          let step : from_json p t o ≡ accept p o (construct p t type o) =
            rw (from_json, q, q') refl in
          let (same, ok) = accept-success o (construct p t type o) (sym step ∙ h) in
          (i, type, q, q', same, ok)
    ]
  ]

  -- An accepted request of a user has the user that its message names.
  pub from_json-Grants :
      (t : ℕ) (o : Object) {r : Request} {b : Body}
      → from_json p t o ≡ inr (r, b)
      → has_user r.type ≡ true
      → Grants p o r.user
  from_json-Grants t o h u =
      let (i, type, q, q', same, ok) = from_json-construct t o h in
      let type_same = sym (ap (λ c. c.0.type) same) ∙ construct-type t type o ok in
      subst (λ c. Grants p o c.0.user) same
        (construct-Grants t type o (subst (λ x. has_user x ≡ true) type_same u) ok)

  -- The type of an accepted request is the one whose number its message has.
  pub from_json-type :
      (t : ℕ) (o : Object) {r : Request} {b : Body}
      → from_json p t o ≡ inr (r, b)
      → (i : ℤ) × (read (as_int p.rapid) "messageType" o ≡ inr i)
        × (enumerator request_types i ≡ some r.type)
  from_json-type t o h =
      let (i, type, q, q', same, ok) = from_json-construct t o h in
      let type_same = sym (ap (λ c. c.0.type) same) ∙ construct-type t type o ok in
      (i, q, q' ∙ ap some (sym type_same))
