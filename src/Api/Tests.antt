-- ===== src/Api/Tests.antt =====
-- The API client's theorems at concrete inputs, and tests of the reader.
use llm_router_ui.Prelude.{◌≡◌, refl, true, none, some, [], ◌∷◌}
use llm_router_ui.Text.{codes, same, is_empty, starts_with, trim, is_space}
use llm_router_ui.Types.{gateway_provider}
use llm_router_ui.Api.{ErrorBody, Response, Body, returned, plain, is_ok}
use llm_router_ui.Api.Url.{normalize_base_url, proxy_url, proxy_url-relative, proxy_url-slash}
use llm_router_ui.Api.Errors.{parse_error, parse_error-eq-nil, text_or_empty, truthy}
use llm_router_ui.Api.Request.{Options}
use llm_router_ui.Api.Split.{split_blank, lines}
use llm_router_ui.Api.Stream
use llm_router_ui.Api.Stream.{Event, read_body, scan_frames, stream_completion}
use llm_router_ui.Api.Stream.Chunks.{concat, chunking_irrelevant}
use llm_router_ui.Api.Stream.Tokens.{tokens, stream_completion-tokens}
use llm_router_ui.Samples.{echo, greeting, answering}

run : Unit {0}
unfolding stream_completion read_body scan_frames split_blank lines same is_empty starts_with trim
    parse_error proxy_url truthy is_ok
run = tt

abbrev asked : Options
asked = record {
  model = codes "auto";
  messages = [];
  temperature = none;
  max_tokens = none;
  web_search = none;
}

greeting_test :
    stream_completion echo answering gateway_provider asked
    ≡ (Stream.token (codes "Hello") ∷ Stream.token (codes "you") ∷ [], returned (codes "Helloyou"))
unfolding run
greeting_test = refl

remote_url_test :
    proxy_url (codes " https://api.openai.com/v1// ") (codes "/models")
    ≡ codes "/proxy/remote/https://api.openai.com/v1/models"
unfolding run
remote_url_test = refl

abbrev whole_greeting : Body
whole_greeting = record { chunks = concat greeting.chunks ∷ []; broken = none }

chunking_irrelevant_example : read_body echo greeting ≡ read_body echo whole_greeting
chunking_irrelevant_example = chunking_irrelevant echo greeting whole_greeting refl refl

greeting_returned :
    (stream_completion echo answering gateway_provider asked).1 ≡ returned (codes "Helloyou")
unfolding run
greeting_returned = refl

stream_completion-tokens_example :
    codes "Helloyou" ≡ tokens (stream_completion echo answering gateway_provider asked).0
stream_completion-tokens_example =
    stream_completion-tokens echo answering gateway_provider asked (codes "Helloyou")
      greeting_returned

abbrev crlf_greeting : Body
crlf_greeting = record { chunks = codes "data: Hi\r\n\r\n" ∷ []; broken = none }

proxy_url-relative_example :
    (starts_with (codes "/") (proxy_url (codes "//x.ai/v1/") (codes "/models")) ≡ true)
    × (starts_with (codes "//") (proxy_url (codes "//x.ai/v1/") (codes "/models"))
        ≡ starts_with (codes "//") (normalize_base_url (codes "//x.ai/v1/")))
proxy_url-relative_example = proxy_url-relative (codes "//x.ai/v1/") (codes "/models")

proxy_url-slash_example :
    proxy_url (codes "/v1/") (codes "/models") ≡ proxy_url (codes "/v1") (codes "/models")
unfolding is_space
proxy_url-slash_example = proxy_url-slash (codes "/v1") (codes "/models") refl

abbrev blank_error : Response
blank_error = record { status = 500; text = returned (codes "{}"); body = none }

blank_error_test : parse_error echo blank_error ≡ []
unfolding run
blank_error_test = refl

parse_error-eq-nil_example :
    (body : ErrorBody) × (echo.parse_error_body (text_or_empty blank_error.text) ≡ some body)
    × (body.error ≡ plain [])
parse_error-eq-nil_example = parse_error-eq-nil echo blank_error blank_error_test
