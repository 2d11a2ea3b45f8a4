-- ===== src/Lib.antt =====
-- The WhatsApp customer bot: what it may send, to whom and when, and what it remembers of it.
--
-- Meta delivers webhooks, possibly more than once. The endpoint (app/api/webhooks.py) claims each
-- event in a ledger and enqueues a task for it; the worker (app/workers/tasks.py) runs the task in
-- one transaction. Services (app/services) answer inbound messages (rules first, then the language
-- model, then the composed reply or a human), keep consent and run campaigns on top of
-- repositories (app/repositories) over SQL tables, and send through the client of
-- app/integrations; every business-initiated send passes the compliance gate of
-- app/domain/rules.py.
--
-- Domain: app/domain. Domain/Enums holds the enums, Domain/Models the table rows of models.py,
--   Domain/Config the configuration of config_schema.py, Domain/Rules the pure rules of rules.py
--   (Schedule, Eligibility, Keywords, Handover), Domain/Schemas the analysis, retrieval and reply
--   of schemas.py, and Domain/Phone the normaliser of phone.py with mask_phone of
--   app/core/redaction.py.
-- Store: a session. Store/Session has the tables (Db), what one handler sees (World: tables,
--   clock, correlation id, calls made and tasks enqueued so far), exceptions as values, and
--   session_scope of app/core/db.py, which takes back the tables but no call. Store/Rows and
--   Store/Unique are queries and constraints on lists of rows, Store/Quiet says what a step calls
--   outside.
-- Repositories: app/repositories, one file for each group of tables; a query is a filter in the
--   order of ids, and scalar_one_or_none raises on a second row. Contacts is contacts.py, Consents
--   and Escalations consent.py, Conversations, Messages and Webhooks conversations.py, Campaigns
--   campaigns.py. A unique constraint is a test before the insert.
-- Services/Consent: ConsentService of app/services/consent_service.py, under the names of its
--   methods.
-- Services/Campaign: CampaignService of app/services/campaign_service.py. Data has its records
--   and what it calls outside the program, Stage create_campaign and stage_recipients, Execute
--   execute_campaign.
-- Services/Escalation: EscalationService of app/services/escalation_service.py; the CRM is a
--   parameter.
-- Services/Intent: app/services/intent_service.py, the rules before the model and the validation
--   after it.
-- Services/Response: app/services/response_service.py. Sanitise has sanitise_reply, Fragments
--   the sentences, Compose the choice of the reply, Stages and Limits what is known of it.
-- Services/Conversation: ConversationService of app/services/conversation_service.py. Inbound
--   has the parts of handle_inbound (the contact, the history, the reply and its storage) and
--   Handle its steps in their order: receive stores the message, decide looks for an opt-out,
--   unless_paused for the switches, converse analyses and respond answers. Statuses has
--   handle_status. Receipt, Steps, Texts, Pauses, OptOut and Failures are about them.
-- Integrations/Client: app/integrations/whatsapp_client.py. Breaker is CircuitBreaker, Request
--   the retry loop of _request over the answers of the HTTP library, Payloads the bodies of the
--   messages.
-- Integrations/Parser: app/integrations/webhook_parser.py. Json is the type of a decoded body,
--   Events the parser of one message or status, Webhook parse_webhook, whose loops thread the
--   result, Items and Conservation are about what becomes of each item.
-- Api/Webhooks: the claim and dispatch loops of handle_webhook in app/api/webhooks.py over a
--   queue that takes a job or raises (enqueue of app/workers/arq_runtime.py), and in Endpoint the
--   two endpoints around them.
-- Core/Security: the signatures and tokens of app/core/security.py.
-- Workers/Tasks: the tasks of app/workers/tasks.py; the handler of an event is a parameter,
--   which OptOut fills with handle_inbound.
-- Samples and Tests: a small shop, and the theorems at concrete inputs.
--
-- Numbers are natural numbers. A moment counts microseconds from the epoch and a rate or
-- confidence counts millionths, so a float comparison of the source is the exact comparison of the
-- fractions. The clock stands still while one handler runs, and the handlers of a session run one
-- after the other. An object whose attributes a method sets is returned with them, and its row
-- changes at once; the ORM writes it at the next flush of the same transaction. After a failed
-- flush the session takes no query before its rollback; in the tables' operations the exception of
-- the flush, integrity, ends the handler, so only the error handler of the inbound task
-- (record_failure) has to ask for it.
--
-- The loop of execute_campaign over batches is on fuel, since the number of its rounds has no
-- bound: it ends with none where the fuel is spent while recipients are pending. All other loops
-- are structural.
--
-- Time zones, Unicode tables, re.sub, the phone library, HMAC, the cipher, the JSON parser, the
-- queue, the CRM, the language model, the knowledge search, the texts of decisions and the answers
-- of the HTTP library and the WhatsApp API are parameters. The services take the number normaliser
-- and the API as functions of their own, so that what is said of them holds for every client. Not
-- modelled: the knowledge service (its scores are floating point), the language-model client and
-- the prompts, the admin pages, settings, logging, scripts and migrations; pacing between two
-- sends of a campaign.
pub mod Prelude
pub mod Core
pub mod Domain
pub mod Store
pub mod Repositories
pub mod Integrations
pub mod Services
pub mod Workers
pub mod Api
pub mod Samples
pub mod Tests
