-- ===== src/Mime/Track.antt =====
-- internal/mail/mime/track.go: tracking pixels, tracker hosts, and the header List-Unsubscribe. The
-- tokens of golang.org/x/net/html are a parameter; text is ASCII where it is lowered or trimmed.
pub mod Hosts
pub mod Unsubscribe
use vayu_mail_mobile.Base.{
  until, split, has_suffix, contains, take, ℕ, ◌+◌, ◌-◌, Bool, true, false, not, ◌&&◌, ◌||◌, List,
  [], ◌∷◌, ◌++◌, map, Bytes, codes, eq_bytes, lower, trim_left, trim_right, trim_space, has_prefix,
  length, drop, leb, ◌==◌, if◌then◌else◌,
}

abbrev pub tracker_hosts : List Bytes
tracker_hosts =
    codes "list-manage.com"
    ∷ codes "mailchimp.com"
    ∷ codes "mandrillapp.com"
    ∷ codes "sendgrid.net"
    ∷ codes "sendgrid.com"
    ∷ codes "sparkpostmail.com"
    ∷ codes "awstrack.me"
    ∷ codes "aweber.com"
    ∷ codes "getresponse.com"
    ∷ codes "mailtrack.io"
    ∷ codes "mixmax.com"
    ∷ codes "streak.com"
    ∷ codes "yesware.com"
    ∷ codes "bananatag.com"
    ∷ codes "mailgun.org"
    ∷ codes "postmarkapp.com"
    ∷ codes "customeriomail.com"
    ∷ codes "exacttarget.com"
    ∷ codes "salesforce.com"
    ∷ codes "hubspotemail.net"
    ∷ codes "hs-analytics.net"
    ∷ codes "klaviyomail.com"
    ∷ codes "braze.com"
    ∷ codes "iterable.com"
    ∷ codes "sailthru.com"
    ∷ []

-- what the tokenizer yields before its error token: a start tag, self-closing or not, and the rest
pub data Token : Type 0 where
  start_tag : Bytes → List (Bytes × Bytes) → Token
  other_token : Token

-- attrs[k] of the map that the attributes were written to in order; `found` is what it holds so far
unfoldable pub attr_value : Bytes → List (Bytes × Bytes) → Bytes → Bytes
attr_value found [] k = found
attr_value found ((j, v) ∷ attrs) k = attr_value (if eq_bytes j k then v else found) attrs k

-- strings.TrimSuffix
unfoldable pub trim_suffix : Bytes → Bytes → Bytes
trim_suffix s t = if has_suffix s t then take (length s - length t) s else s

abbrev pub is_zero_or_one : Bytes → Bool
is_zero_or_one s = eq_bytes s (codes "0") || eq_bytes s (codes "1")

unfoldable pub is_hiding : Bytes → Bool
is_hiding style =
    contains style (codes "display:none")
    || contains style (codes "display: none")
    || contains style (codes "visibility:hidden")
    || contains style (codes "visibility: hidden")

unfoldable pub is_tracking_pixel : (Bytes → Bytes) → Bool
is_tracking_pixel attrs =
    let w = trim_suffix (trim_space (attrs (codes "width"))) (codes "px") in
    let h = trim_suffix (trim_space (attrs (codes "height"))) (codes "px") in
    if is_zero_or_one w && is_zero_or_one h
    then true
    else if is_hiding (map lower (attrs (codes "style")))
    then not (eq_bytes (attrs (codes "src")) [])
    else false

unfoldable pub is_on : Bytes → List Bytes → Bool
is_on host [] = false
is_on host (t ∷ hosts) =
    let rest = is_on host hosts in eq_bytes host t || has_suffix host (b'.' ∷ t) || rest

abbrev pub ends_host : ℕ → Bool
ends_host c = c == b'/' || c == b'?' || c == b'#'

-- the host segment of what follows "://"
unfoldable pub host_of : Bytes → Bytes
host_of rest = until (λ c. c == b':') (until ends_host rest)

unfoldable pub hits : Bytes → Bool
hits url =
    if has_prefix (codes "http://") url
    then is_on (host_of (drop 7 url)) tracker_hosts
    else if has_prefix (codes "https://") url
    then is_on (host_of (drop 8 url)) tracker_hosts
    else false

unfoldable pub url_hits_tracker_host : Bytes → Bool
url_hits_tracker_host url = hits (map lower url)

abbrev pub or_else : Bytes → Bytes → Bytes
or_else [] url = url
or_else (c ∷ s) url = c ∷ s

-- one img or a element
unfoldable pub tag_tracks : Bool → (Bytes → Bytes) → Bool
tag_tracks is_img attrs =
    (is_img && is_tracking_pixel attrs)
    || url_hits_tracker_host (or_else (attrs (codes "src")) (attrs (codes "href")))

unfoldable pub token_tracks : Token → Bool
token_tracks (start_tag name attrs) =
    if eq_bytes name (codes "img")
    then tag_tracks true (λ k. attr_value [] attrs k)
    else if eq_bytes name (codes "a")
    then tag_tracks false (λ k. attr_value [] attrs k)
    else false
token_tracks other_token = false

unfoldable pub any_tracks : List Token → Bool
any_tracks [] = false
any_tracks (t ∷ tokens) = let rest = any_tracks tokens in token_tracks t || rest

unfoldable pub detect_trackers : (Bytes → List Token) → Bytes → Bool
detect_trackers tokens html_body =
    if eq_bytes html_body [] then false else any_tracks (tokens html_body)

abbrev pub is_angle : ℕ → Bool
is_angle c = c == b'<' || c == b'>'

-- a part of the header without white space and angle brackets around it
unfoldable pub trim_part : Bytes → Bytes
trim_part part = trim_right is_angle (trim_left is_angle (trim_space part))

abbrev pub is_mailto : Bytes → Bool
is_mailto part = has_prefix (codes "mailto:") (map lower part)

abbrev pub is_https : Bytes → Bool
is_https part = has_prefix (codes "https://") (map lower part)

unfoldable pub mailto_address : Bytes → Bytes
mailto_address part = until (λ c. c == b'?') (drop 7 part)

-- one turn of the loop, with the results so far
unfoldable pub take_part : Bytes → Bytes × Bytes → Bytes × Bytes
take_part part (mailto, url) =
    if is_mailto part && eq_bytes mailto []
    then (mailto_address part, url)
    else if is_https part && eq_bytes url []
    then (mailto, part)
    else (mailto, url)

unfoldable pub take_parts : List Bytes → Bytes × Bytes → Bytes × Bytes
take_parts [] found = found
take_parts (part ∷ parts) found = take_parts parts (take_part (trim_part part) found)

unfoldable pub first_unsubscribe_target : Bytes → Bytes × Bytes
first_unsubscribe_target header = take_parts (split header b',') ([], [])
