-- ===== src/Lib.antt =====
-- A model of the chat frontend (frontend/src) that the gateway serves, in antt.
--
-- The program. A page keeps chats and settings in the browser's IndexedDB (frontend/src/lib/db.ts), shows them
-- through two stores (frontend/src/store/useChats.ts and useSettings.ts), and talks to OpenAI-compatible
-- endpoints through frontend/src/lib/api.ts, which parses a stream of server-sent events by hand. Sending a
-- message saves it, adds a placeholder for the answer, streams tokens into the placeholder, and
-- saves the answer, a partial answer or an error at the end.
--
-- The files.
--   Text, Text/*: JavaScript strings as lists of UTF-16 code units, with the methods that are used.
--   Types, Types/Patch: types.ts, and partial records spread over whole ones.
--   Utils, Utils/*: lib/utils.ts. Models, Models/*: lib/models.ts.
--   Idb, Idb/*: the object stores of IndexedDB as an interface with laws, and an instance of it.
--   Db, Db/*: lib/db.ts over any object store; Db/Backup has exportData and importData.
--   Api, Api/*: lib/api.ts. Api/Url (normalizeBaseUrl, proxyUrl, headers), Api/Errors (parseError),
--     Api/Request (completionBody, fetchModels, fetchCompletion), Api/Split and Api/Stream
--     (streamCompletion).
--   Settings, Settings/*: store/useSettings.ts and the theme class that it sets.
--   Chats, Chats/*: store/useChats.ts. Chats has the actions on chats, Chats/Run the completion,
--     Chats/Send send, regenerate and stop; Chats/Settle/* and Chats/Refine say
--     what a completion comes to, Chats/Stopping what stop does across two of them. Chats/Mirror/* and
--     Chats/Rests are about histories of actions, Chats/Removal and Chats/Elsewhere about a completion
--     whose chat is removed or left, Chats/Request about what is sent. In Chats/Async the actions are cut
--     at every await: System has the step relation, Effects, Marks, Rest and Quiet what holds however
--     calls overlap; Alone, Sequential, Solo and Schedule how the two views of the store agree; Overlap
--     what two calls of regenerate come to.
--   Screen: App.tsx, both stores over one database. Sidebar, Composer, SettingsModal and Bubble: the
--     state, handlers and derived values of the components in frontend/src/components; Bubble has
--     MessageBubble.tsx and ChatView.tsx, Bubble/Copying the copy buttons, Bubble/Scrolling what
--     scrolls the transcript. Ui: all of them together, and what each action does;
--     Ui/Sound, Preferences, Chatting, Backups, Handled and Session: what holds of the page
--     throughout a session, where Chats/Frame and the invariants of the two stores meet.
--   View, View/*: the elements that the components build. View/Actions lists the actions of the handlers;
--     View/Icons, Bubble (MessageBubble.tsx), Chat (ChatView.tsx), Sidebar, Composer, Settings and
--     Settings/Providers (SettingsModal.tsx) and App have a view each; View/Offers is about the
--     buttons and the keys of the composer, View/Markup about what of a view reaches the document.
--   Samples and the modules named Tests hold concrete inputs; Prelude the shared helpers.
--
-- How state is modelled. A store action takes the store, the database and the module's variables to
-- new ones. Calls of the clock and of uid() are arguments. Database calls succeed. Outside Chats/Async
-- an action is one step: where the code awaits, no other action runs in between. In Chats/Run the
-- completion is cut into the functions start, on_event, complete, fail and finalize, which
-- Chats/Stopping, Chats/Removal and Chats/Elsewhere put between other actions; Chats/Mirror/Switching
-- does so with the two halves of add_user_message. In Chats/Async a call runs to its first await and
-- leaves a task, which holds the variables that it still needs; a request to the database takes effect
-- when it is made. Any call may be made and any task resumed at any time; a read of the network goes
-- on with what the network gives, which may be anything at any time.
--
-- Parameters. The object stores (Idb.ObjectStore), JSON documents (Db.Backup.Json), JSON.parse of
-- response bodies and TextDecoder (Api.Platform), the network (a function from requests to
-- responses), lower case and localeCompare (Models.Locale), the name of a month
-- (Utils), the host of a URL (SettingsModal), ReactMarkdown (View.Bubble.Markdown), what the platform
-- answers in one action (Ui.Answers). Their laws are fields of these records, and Samples and the
-- Tests modules give instances.
--
-- Bounds. Numbers are natural; times are milliseconds, temperatures hundredths. Every loop of the
-- code runs over a list and is structural recursion; the decimal digits of a number take one round
-- more than the number as fuel. In Chats/Async/Sequential a call has as much fuel as it has awaits,
-- and in Chats/Async/Quiet the page has as many moves as its tasks have awaits left.
--
-- Not modelled: a change of the system's preference for a dark theme during a history of actions
-- (Screen.follow_system is the handler by itself); layout and focus, the formatted time (formatTime),
-- React's keys and references, the entry point and the build files of frontend, and the gateway in Go
-- with its compiled copy of the frontend.
pub mod Prelude
pub mod Text
pub mod Types
pub mod Utils
pub mod Models
pub mod Idb
pub mod Db
pub mod Api
pub mod Settings
pub mod Chats
pub mod Screen
pub mod Sidebar
pub mod Composer
pub mod SettingsModal
pub mod Bubble
pub mod View
pub mod Ui
pub mod Samples
