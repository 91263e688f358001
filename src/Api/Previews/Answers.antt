-- ===== src/Api/Previews/Answers.antt =====
-- `preview` of apps/api/src/run.controller.ts: what an expired preview and one on a local cluster answer.
use code_host.Prelude.{
  ℕ, String, true, false, Option, none, some, str_eq, leb, ◌≡◌, ◌≤◌, ◌<◌, refl, sym, ap, ◌∙◌, arith,
}
use Prim.Native.Char.{Char}
use Prim.Native.String
use code_host.Prelude.Text.{◌++◌}
use code_host.Prelude.Result.{ok}
use code_host.Database.Tables.{RunRow}
use code_host.Config.{PreviewMode, local_preview, ingress, ssh, AppConfig}
use code_host.Config.Preview.{
  PreviewServiceReference, is_kubernetes_name, build_preview_service_reference,
  parse_preview_service_reference,
}
use code_host.Config.References.{build_iff}
use code_host.Config.Commands.{join_words, port_forward_words}
use code_host.Config.Quoting.{build_preview_port_forward_command-named}
use code_host.Api.Previews.{
  PreviewAnswer, ready, expired, UrlParser, url_answer, local_answer, service_answer, stored_answer,
  answer_for, preview,
}

pub record IsClosed (answer : PreviewAnswer) : Type 0 where
  pub is_expired : answer.status ≡ expired
  pub no_url : answer.url ≡ none
  pub no_port_forward : answer.port_forward_command ≡ none
  pub no_tunnel : answer.ssh_tunnel_command ≡ none

url_answer-IsClosed :
    (expires_at : ℕ) (found : Option (String × String)) {answer : PreviewAnswer}
    → url_answer expires_at true found ≡ some answer
    → IsClosed answer
unfolding url_answer
url_answer-IsClosed expires_at none h = ground arith
url_answer-IsClosed expires_at (some (protocol, href)) h = record {
  is_expired = ground arith;
  no_url = ground arith;
  no_port_forward = ground arith;
  no_tunnel = ground arith;
}

service_answer-IsClosed :
    (config : AppConfig) (expires_at : ℕ) (found : Option PreviewServiceReference)
    {answer : PreviewAnswer}
    → service_answer config expires_at true found ≡ ok (some answer)
    → IsClosed answer
unfolding service_answer
service_answer-IsClosed config expires_at none h = ground arith
service_answer-IsClosed config expires_at (some reference) h = record {
  is_expired = ground arith;
  no_url = ground arith;
  no_port_forward = ground arith;
  no_tunnel = ground arith;
}

module _ (parse_url : UrlParser) (config : AppConfig) (now : ℕ) where
  stored-IsClosed :
      (mode : PreviewMode) (host : String) (expires_at : ℕ) {answer : PreviewAnswer}
      → config.preview_mode ≡ mode
      → leb expires_at now ≡ true
      → stored_answer parse_url config now host expires_at ≡ ok (some answer)
      → IsClosed answer
  unfolding stored_answer
  stored-IsClosed local_preview host expires_at m past h =
      service_answer-IsClosed config expires_at (parse_preview_service_reference host)
        (ground arith)
  stored-IsClosed ingress host expires_at m past h =
      url_answer-IsClosed expires_at (parse_url host) (ground arith)
  stored-IsClosed ssh host expires_at m past h =
      service_answer-IsClosed config expires_at (parse_preview_service_reference host)
        (ground arith)

  answer-IsClosed :
      (host : Option String) (expires_at : ℕ) {answer : PreviewAnswer}
      → expires_at ≤ now
      → answer_for parse_url config now host (some expires_at) ≡ ok (some answer)
      → IsClosed answer
  unfolding answer_for
  answer-IsClosed none expires_at past h = ground arith
  answer-IsClosed (some host) expires_at past h =
      stored-IsClosed config.preview_mode host expires_at refl (ground arith) (ground arith)

  -- Once a preview has expired, an answer about it says so and carries no address and no command,
  -- whatever the mode of the previews is.
  pub preview-IsClosed :
      (row : RunRow) {expires_at : ℕ} {answer : PreviewAnswer}
      → row.preview_expires_at ≡ some expires_at
      → expires_at ≤ now
      → preview parse_url config now row ≡ ok (some answer)
      → IsClosed answer
  unfolding preview
  preview-IsClosed row {expires_at} expiry past h =
      answer-IsClosed row.preview_host expires_at past
        (sym (ap (answer_for parse_url config now row.preview_host) expiry) ∙ h)

str_eq-cons : (c : Char) (s : String) → str_eq (String.◌∷◌ c s) "" ≡ false
str_eq-cons c s = rw (String.compare.cons-nil c s) refl

prefixed : (s : String) → str_eq ("service://" ++ s) "" ≡ false
unfolding ◌++◌
prefixed s = rw (String.append.cons _ "ervice://" s) (str_eq-cons _ (String.◌++◌ "ervice://" s))

-- What `buildPreviewServiceReference` has built of its names.
built-parts :
    (namespace service_name : String) {host : String}
    → build_preview_service_reference namespace service_name ≡ ok host
    → (is_kubernetes_name namespace ≡ true)
      × (is_kubernetes_name service_name ≡ true)
      × (str_eq host "" ≡ false)
unfolding build_preview_service_reference
built-parts namespace service_name h =
    (ground arith, ground arith, ground (arith, prefixed (namespace ++ ("/" ++ service_name))))

-- The command that forwards a port to a preview, as the answer of a local platform.
unfoldable pub forwarded : String → String → ℕ → PreviewAnswer
forwarded namespace service_name expires_at = record {
  access_mode = local_preview;
  status = ready;
  url = none;
  port_forward_command = some (
      join_words (
        port_forward_words ("'" ++ (namespace ++ "'"))
          ("'" ++ (("service/" ++ service_name) ++ "'"))));
  ssh_tunnel_command = none;
  expires_at = expires_at;
}

module _ (parse_url : UrlParser) (config : AppConfig) (now : ℕ) (namespace service_name : String)
    {host : String} (is_local : config.preview_mode ≡ local_preview)
    (built : build_preview_service_reference namespace service_name ≡ ok host) where
  local_answer-forwarded :
      (expires_at : ℕ)
      → local_answer expires_at (record { namespace = namespace; service_name = service_name })
        ≡ ok (some (forwarded namespace service_name expires_at))
  unfolding local_answer forwarded
  local_answer-forwarded expires_at =
      let parts = built-parts namespace service_name built in
      rw
        (build_preview_port_forward_command-named
          (record { namespace = namespace; service_name = service_name }) parts.0 parts.1)
        refl

  stored_answer-forwarded :
      (expires_at : ℕ)
      → leb expires_at now ≡ false
      → stored_answer parse_url config now host expires_at
        ≡ ok (some (forwarded namespace service_name expires_at))
  unfolding stored_answer service_answer
  stored_answer-forwarded expires_at open_still =
      ground
        (arith, local_answer-forwarded expires_at, (build_iff namespace service_name host).0 built)

  -- On a local platform a run whose stored preview is a reference that the worker built, and has not
  -- expired, is answered with the command that forwards a port to that Service: neither the stored
  -- reference nor a word of the command is refused.
  pub preview-forwarded :
      (row : RunRow) {expires_at : ℕ}
      → row.preview_host ≡ some host
      → row.preview_expires_at ≡ some expires_at
      → now < expires_at
      → preview parse_url config now row ≡ ok (some (forwarded namespace service_name expires_at))
  unfolding preview answer_for
  preview-forwarded row {expires_at} stored expiry open_still =
      rw (stored, expiry, answer_for, (built-parts namespace service_name built).2)
        (stored_answer-forwarded expires_at (ground arith))
