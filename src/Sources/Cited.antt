-- ===== src/Sources/Cited.antt =====
-- The numbers of the list under a reply are the ids that the agent was given for its citations.
use minori.Sources.{Text}
