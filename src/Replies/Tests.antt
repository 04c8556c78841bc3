-- ===== src/Replies/Tests.antt =====
-- Responses and header texts.
use sipi.Common.{[], ◌∷◌, some, Text, codes, ◌≡◌, refl, arith}
use sipi.Http.Sample.{sample_http}
use sipi.Access.Tests.{request}
use sipi.Iiif.Tests.{lena_request}
use sipi.Replies.{safe_bytes, disposition_text, client_ip, busy_response, redirect_target}
use sipi.Replies.Disposition.{file_name, file_name-disposition_text}

-- `a"`, a line break and a byte above 127.
abbrev odd_name : Text
odd_name = 97 ∷ 34 ∷ 10 ∷ 228 ∷ []

odd_name_test : disposition_text odd_name ≡ codes "inline; filename*=UTF-8''a%22%E4"
unfolding disposition_text
odd_name_test = refl

file_name-disposition_text_example :
    file_name (disposition_text odd_name) ≡ some (safe_bytes odd_name)
file_name-disposition_text_example =
    file_name-disposition_text odd_name
      (omega arith, (omega arith, (omega arith, (omega arith, tt))))

redirect_target_test :
    redirect_target request lena_request ≡ codes "http:///iiif/2/image.jpg/info.json"
unfolding redirect_target
redirect_target_test = refl

client_ip_test :
    client_ip (record request { header_str = λ k. some (codes "1.2.3.4, 5.6.7.8 ") })
    ≡ codes "5.6.7.8"
unfolding client_ip
client_ip_test = refl

busy_response_test :
    sample_http.get (busy_response sample_http).headers (codes "retry-after") ≡ some (codes "1")
unfolding busy_response
busy_response_test = refl
