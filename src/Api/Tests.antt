-- ===== src/Api/Tests.antt =====
-- A service with one caller, one document and a model that cites it.
use production_rag.Base.{
  arith, ℕ, ◌≡◌, refl, sym, ◌⊎◌, Bool, true, false, Option, none, some, List, [], ◌∷◌, Text, text,
  Unicode, ok, err, ok-injective, eqb, strip, drop_while, ◌==◌, nat_eq, list_eq, list_beq, Dict,
  lookup, insert, if◌then◌else◌,
}
use production_rag.Permissions.{Principal}
use production_rag.Documents.{Chunk}
use production_rag.History.{SessionKey}
use production_rag.MemoryStore.State.{new_store}
use production_rag.MemoryStore.Calls.{Call, persists, run}
use production_rag.MemoryStore.Consistent.{IsConsistent, run-new_store-IsConsistent}
use production_rag.Workers.{new_worker}
use production_rag.Parsers.{timed_out, starts_with}
use production_rag.Auth.{authenticate}
use production_rag.Api.{
  Exception, refused, Moment, Model, App, Library, Settings, Answer, Response, api_error,
}
use production_rag.Api.Answers.{write_answer}
use production_rag.Api.Asking.{reply}
use production_rag.Api.Routing.{
  authenticated, or_unauthorized, lowered, handle, status_of, find_route, full_match, routes,
  not_allowed,
}
use production_rag.Api.Models.{extractive_model}
use production_rag.Api.Storing.{IsTrimmed}
use production_rag.Api.Changes.{Own}
use production_rag.Api.Service.{
  CountsOne, IsHealthy, route_name, Arrival, serve_all, AllTrimmed, handle-stranger, handle-Own,
  serve_all-IsConsistent,
}
use production_rag.Api.Grounded.{IsGrounded, Foreseeable, reply_exact}
use production_rag.Api.Spending.{Asks, IsRefused, IsSpent, write_answer_budget}
use production_rag.Api.Paths.{Searched, find_route_exact}

abbrev plain : Unicode
plain = record { is_space = λ c. eqb c 32; digit_value = λ c. none }

abbrev library : Library
library = record {
  unicode = plain;
  chunking = record {
    unicode = plain;
    splitlines = λ t. t ∷ [];
    squeeze_blanks = λ t. t;
    find_words = λ t. t ∷ [];
    relabel = λ t. t;
    encode = λ t. ok t;
    file_sha256 = λ bytes. bytes;
    uuid = λ n. n ∷ [];
  };
  parsing = record {
    unicode = plain;
    decode = λ bytes. some bytes;
    suffix = λ name. text ".txt";
    lower = λ t. t;
    before_semicolon = λ t. t;
    is_html_head = λ bytes. false;
    sandbox = λ kind bytes. timed_out;
  };
  citing = record {
    unicode = plain;
    find_citations = λ t. text "1" ∷ [];
    drop_citations = λ t. t;
    read_int = λ t. 1;
    words = λ t. t ∷ [];
    leans_back = λ t. false;
  };
  matching = record { unicode = plain; is_injection = λ t. false; lexical_score = λ q t. 50 };
  network = record {
    unicode = plain;
    urlsplit = λ u. none;
    getaddrinfo = λ host port. none;
    is_global = λ a. false;
    is_model_id = λ m. true;
  };
  keys = record { unicode = plain; show = λ j. []; lower = λ t. t; hash_key = λ k. k };
  json_loads = λ body. none;
  split_path = λ path. some (path, []);
  encode = λ t. ok t;
  b64encode = λ bytes. bytes;
  b64decode = λ validate t. ok t;
  fromisoformat = λ t. ok 0;
  is_source_system = λ t. true;
  times_074 = λ n. n;
  is_zero = λ t. false;
  is_blank = λ bytes. true;
  reads_int = λ part. true;
  replace_citations = λ keep t. t;
}

abbrev alice : Principal
alice = record { tenant_id = text "acme"; user_id = text "alice"; groups = [] }

-- The state of the network is the number of calls.
abbrev model : Model ℕ
model = record {
  rewrite_query = λ question history calls. (question, 1);
  complete = λ question context history calls. (
    ok (record {
      text = text "Thirty days [1].";
      model = text "m";
      prompt_tokens = 5;
      completion_tokens = 6;
      degraded = false;
      cost = 0;
      note = [];
    }),
    1,
  );
}

abbrev settings : Settings ℕ
settings = record {
  principals = (text "k", alice) ∷ [];
  gate = record {
    top_k = 5;
    min_score = 10;
    relative_score = 50;
    max_query_length = 2000;
    one = 100;
  };
  windows = record { chunk_size = 100; overlap = 10 };
  max_body_bytes = 1000;
  custom_urls = none;
  provider = extractive_model library.citing;
  provider_names = some (text "m" ∷ []);
  provider_name = text "m";
  user_provider = λ s. model;
}

abbrev moment : Moment
moment = record {
  now = 5;
  ticks = 5;
  today = text "2026-01-01";
  hour = 23;
  minute = 59;
  second = 30;
  elapsed = 1;
  fresh_id = text "r1";
  fresh_job = text "j1";
}

abbrev chunk : Chunk
chunk = record {
  text = text "thirty days";
  document_id = text "d1";
  index = 0;
  tenant_id = text "acme";
  source = text "handbook.txt";
  id = text "c";
  created_at = 1;
  page = none;
}

abbrev uploads : List Call
uploads =
    persists 1 (record { document_id = text "d1"; content_sha256 = text "d1"; chunks = chunk ∷ [] })
      (record {
        allowed_groups = none;
        groups = [];
        content_type = text "text/plain";
        source = none;
      })
    ∷ []

abbrev application : App ℕ
application = record {
  memory = run new_store uploads;
  history = record { max_messages = 4; messages = [] };
  limiter = record { limits = record { rate = 1; capacity = 10; token = 1 }; buckets = [] };
  budget = record { limit = 10; used = ((text "acme", text "2026-01-01"), 11) ∷ [] };
  worker = new_worker;
  counts = [];
  world = 0;
}

abbrev headers : Dict Text Text
headers = (text "x-api-key", text "k") ∷ []

known : authenticated library settings moment headers ≡ ok alice
unfolding authenticated authenticate lowered list_beq lookup insert
known = refl

alice-IsTrimmed : IsTrimmed library alice
unfolding strip drop_while
alice-IsTrimmed = refl

handle-Own_example :
    Own alice application
      (handle library settings moment (text "GET") (text "/v1/documents") headers [] application).1
    × CountsOne
        (route_name library settings moment (text "GET") (text "/v1/documents"))
        (text "GET")
        (status_of library settings moment
          (handle library settings moment
            (text "GET")
            (text "/v1/documents")
            headers
            []
            application).0.outcome)
        application
        (handle library settings moment
          (text "GET")
          (text "/v1/documents")
          headers
          []
          application).1
handle-Own_example =
    handle-Own library settings moment alice (text "GET") (text "/v1/documents") headers []
      application alice-IsTrimmed known

unknown :
    authenticated library settings moment []
    ≡ err (refused (api_error 401 (text "invalid or missing API key")))
unfolding authenticated authenticate lowered lookup
unknown = refl

handle-stranger_example :
    ((handle library settings moment (text "DELETE") (text "/v1/documents/d1") [] [] application).1
      ≡ record application {
        counts =
            (handle library settings moment
              (text "DELETE")
              (text "/v1/documents/d1")
              []
              []
              application).1.counts;
      })
    × CountsOne
        (route_name library settings moment (text "DELETE") (text "/v1/documents/d1"))
        (text "DELETE")
        (status_of library settings moment
          (handle library settings moment
            (text "DELETE")
            (text "/v1/documents/d1")
            []
            []
            application).0.outcome)
        application
        (handle library settings moment
          (text "DELETE")
          (text "/v1/documents/d1")
          []
          []
          application).1
    × ((r : Response)
        → (handle library settings moment
            (text "DELETE")
            (text "/v1/documents/d1")
            []
            []
            application).0.outcome
          ≡ ok r
        → IsHealthy r)
handle-stranger_example =
    handle-stranger library settings moment (text "DELETE") (text "/v1/documents/d1") [] []
      application (refused (api_error 401 (text "invalid or missing API key"))) unknown

picked :
    (found : Bool) (p : Principal)
    → or_unauthorized library settings moment (if found then some alice else none) ≡ ok p
    → alice ≡ p
picked true p h = ok-injective h
picked false p h = cc h

-- The one key is that of alice.
only_alice :
    (given : Option Text) (p : Principal)
    → or_unauthorized library settings moment (authenticate library.keys given settings.principals)
      ≡ ok p
    → alice ≡ p
unfolding authenticate lookup
only_alice none p h = cc h
only_alice (some []) p h = cc h
only_alice (some (c ∷ s)) p h = picked (text "k" == c ∷ s) p h

all_trimmed : AllTrimmed library settings
unfolding authenticated
all_trimmed t hs p h = rw (sym (only_alice _ p h)) alice-IsTrimmed

abbrev arrivals : List Arrival
arrivals =
    record {
      moment = moment;
      method = text "DELETE";
      path = text "/v1/documents/d1";
      headers = headers;
      body = [];
    }
    ∷ record {
      moment = moment;
      method = text "POST";
      path = text "/v1/query";
      headers = [];
      body = [];
    }
    ∷ []

serve_all-IsConsistent_example :
    IsConsistent (serve_all library settings arrivals application).memory
serve_all-IsConsistent_example =
    serve_all-IsConsistent library settings arrivals application all_trimmed
      (run-new_store-IsConsistent uploads)

abbrev session : SessionKey
session = (text "acme", (text "alice", text "s"))

reply_exact_example :
    ((r : Answer) × ((reply library settings moment true alice
          (text "How long?")
          session
          (some model)
          application).0
        ≡ ok r)
      × IsGrounded library alice application.memory r)
    ⊎ ((e : Exception) × ((reply library settings moment true alice
            (text "How long?")
            session
            (some model)
            application).0
          ≡ err e)
        × Foreseeable library settings moment (some model) e)
reply_exact_example =
    reply_exact library settings moment alice true (text "How long?") session (some model)
      application (run-new_store-IsConsistent uploads)
      (omega arith, omega arith, omega arith, omega arith)

write_answer_budget_example :
    (IsRefused library settings moment
        (text "acme")
        (text "How long?")
        []
        (chunk, 50)
        []
        application
        (write_answer library settings moment none
          (text "acme")
          (text "How long?")
          []
          ((chunk, 50) ∷ [])
          application)
      ⊎ IsSpent library settings moment
          (text "acme")
          (text "How long?")
          []
          (chunk, 50)
          []
          application
          (write_answer library settings moment none
            (text "acme")
            (text "How long?")
            []
            ((chunk, 50) ∷ [])
            application))
    × Asks model (text "How long?") [] ((chunk, 50) ∷ []) 0 (
        write_answer library settings moment
          (some model)
          (text "acme")
          (text "How long?")
          []
          ((chunk, 50) ∷ [])
          application)
    × ((write_answer library settings moment
          (some model)
          (text "acme")
          (text "How long?")
          []
          ((chunk, 50) ∷ [])
          application).1.budget
        ≡ application.budget)
write_answer_budget_example =
    write_answer_budget library settings moment (text "acme") (text "How long?") [] (chunk, 50) []
      application model (omega arith)

not_put : find_route (text "PUT") (text "/v1/documents") false routes ≡ not_allowed
unfolding find_route full_match list_beq starts_with
not_put = refl

find_route_exact_example :
    Searched
      (text "PUT")
      (text "/v1/documents")
      false
      routes
      (find_route (text "PUT") (text "/v1/documents") false routes)
find_route_exact_example = find_route_exact (text "PUT") (text "/v1/documents") false routes
